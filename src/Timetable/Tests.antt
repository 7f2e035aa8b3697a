-- ===== src/Timetable/Tests.antt =====
-- tumba_sdn/timetable/timetable_engine.py: runs over the sample timetable.
use ai_driven_software_defin.Base.{
  first_some, ◌≡◌, ◌↔◌, ◌⊎◌, refl, true, ◌&&◌, ◌||◌, Option, none, some, String, In, lookup,
  has_key, ltb, nat_beq, string_eq, if◌then◌else◌,
}
use ai_driven_software_defin.Timetable.Database.{Slot, Override, Db, new_db, init_db}
use ai_driven_software_defin.Timetable.Engine.{
  LocalTime, is_current, is_in_force, is_exam, is_exam_override, base_priorities, compute_state,
  OverrideRequest, post_override,
}
use ai_driven_software_defin.Timetable.Exams.{exam_flag_iff, exam_override_lem}
use ai_driven_software_defin.Timetable.Priorities.{last_override, zone_priorities_lem}

abbrev db : Db
db = init_db new_db

abbrev tuesday : LocalTime
tuesday = record { day = "TUE"; hour = 11; minute = 30 }

abbrev request : Option String → OverrideRequest
request kind = record {
  kind = kind;
  zone = none;
  value = none;
  duration_ms = some 60000;
  details = "{}";
}

exam_flag_iff_example : ((compute_state tuesday 5 tuesday db).exam_flag ≡ true) ↔ (
    ((s : Slot) × In s db.slots × ((is_exam s && is_current tuesday s) ≡ true))
    ⊎ ((o : Override) × In o db.overrides × ((is_exam_override o && is_in_force 5 o) ≡ true)))
exam_flag_iff_example = exam_flag_iff tuesday 5 tuesday db

exam_override_lem_example :
    (compute_state tuesday 70000 tuesday (post_override 5000 (request none) db)).exam_flag
    ≡ ((compute_state tuesday 70000 tuesday db).exam_flag || (nat_beq 65000 0 || ltb 70000 65000))
exam_override_lem_example = exam_override_lem 5000 (request none) tuesday 70000 tuesday db refl

zone_priorities_lem_example :
    let state = compute_state tuesday 5 tuesday db in
    lookup "student_wifi" state.zone_priorities ≡ (
      if has_key "student_wifi" (base_priorities state.exam_flag)
      then first_some
          (last_override "student_wifi" state.active_slots)
          (lookup "student_wifi" (base_priorities state.exam_flag))
      else none)
zone_priorities_lem_example = zone_priorities_lem tuesday 5 tuesday db "student_wifi"
