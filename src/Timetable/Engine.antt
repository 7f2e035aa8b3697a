-- ===== src/Timetable/Engine.antt =====
-- tumba_sdn/timetable/timetable_engine.py: the queries, `compute_state` and the requests of the HTTP
-- interface that change the state.
use ai_driven_software_defin.Base.{
  ℕ, ◌+◌, ◌*◌, Bool, true, ◌&&◌, ◌||◌, Option, none, some, List, [], ◌∷◌, ◌++◌, String, Dict,
  insert, has_key, keep, any, length, or_else, ltb, leb, nat_beq, ◌==◌, string_eq, if◌then◌else◌,
}
use ai_driven_software_defin.Timetable.Database.{Slot, Override, Db}

-- What `datetime.now()` says.
pub record LocalTime : Type 0 where
  pub day : String
  pub hour : ℕ
  pub minute : ℕ

abbrev pub time_of_day : LocalTime → ℕ
time_of_day now = now.hour * 60 + now.minute

abbrev pub is_current : LocalTime → Slot → Bool
is_current now slot =
    slot.day == now.day
    && leb slot.start_time (time_of_day now)
    && ltb (time_of_day now) slot.end_time
    && slot.active

unfoldable pub get_active_slots : LocalTime → Db → List Slot
get_active_slots now db = keep (is_current now) db.slots

abbrev pub is_in_force : ℕ → Override → Bool
is_in_force now o = o.active && (nat_beq o.expires_at 0 || ltb now o.expires_at)

unfoldable pub get_active_overrides : ℕ → Db → List Override
get_active_overrides now db = keep (is_in_force now) db.overrides

pub data Period : Type 0 where
  morning_classes lunch_break afternoon_classes evening_study off_hours : Period

unfoldable pub period_of : ℕ → Period
period_of hour =
    if leb 8 hour && ltb hour 12
    then morning_classes
    else if leb 12 hour && ltb hour 13
    then lunch_break
    else if leb 13 hour && ltb hour 17
    then afternoon_classes
    else if leb 17 hour && ltb hour 20
    then evening_study
    else off_hours

abbrev pub is_exam : Slot → Bool
is_exam slot = slot.slot_type == "exam"

abbrev pub is_exam_override : Override → Bool
is_exam_override o = o.override_type == "exam_mode"

unfoldable pub exam_active : List Slot → List Override → Bool
exam_active slots overrides = any is_exam slots || any is_exam_override overrides

abbrev pub base_priorities : Bool → Dict String ℕ
base_priorities exam =
    let ps = ("staff_lan", 1) ∷ ("server_zone", 1) ∷ ("it_lab", 2) ∷ ("student_wifi", 3) ∷ [] in
    if exam then insert "student_wifi" 1 ps else ps

-- One slot's priority, for a zone that has one.
abbrev pub override_priority : Option ℕ → String → Dict String ℕ → Dict String ℕ
override_priority none zone ps = ps
override_priority (some p) zone ps = if has_key zone ps then insert zone p ps else ps

unfoldable pub override_priorities : List Slot → Dict String ℕ → Dict String ℕ
override_priorities [] ps = ps
override_priorities (s ∷ slots) ps =
    override_priorities slots (override_priority s.priority_override s.zone ps)

pub record TimetableState : Type 0 where
  pub ts : ℕ
  pub exam_flag : Bool
  pub period : Period
  pub day : String
  pub time : ℕ
  pub active_slots : List Slot
  pub active_overrides : List Override
  pub zone_priorities : Dict String ℕ
  pub slot_count : ℕ

-- `compute_state`, which reads the clock three times: in each query, and for the period.
unfoldable pub compute_state : LocalTime → ℕ → LocalTime → Db → TimetableState
compute_state slots_now overrides_now now db =
    let slots = get_active_slots slots_now db in
    let overrides = get_active_overrides overrides_now db in
    let exam = exam_active slots overrides in
    record {
      ts = overrides_now;
      exam_flag = exam;
      period = period_of now.hour;
      day = now.day;
      time = time_of_day now;
      active_slots = slots;
      active_overrides = overrides;
      zone_priorities = override_priorities slots (base_priorities exam);
      slot_count = length slots;
    }

-- The body of `/override`, which may leave out every part; `details` is the body as it was sent.
pub record OverrideRequest : Type 0 where
  pub kind : Option String
  pub zone : Option String
  pub value : Option String
  pub duration_ms : Option ℕ
  pub details : String

-- `/override`.
unfoldable pub post_override : ℕ → OverrideRequest → Db → Db
post_override now body db = record db {
  overrides =
      db.overrides
      ++ (record {
        id = db.next_override;
        ts = now;
        override_type = or_else body.kind "exam_mode";
        zone = or_else body.zone "";
        value = or_else body.value "";
        expires_at = now + or_else body.duration_ms 3600000;
        active = true;
      }
          ∷ []);
  next_override = db.next_override + 1;
  sync_log =
      db.sync_log
      ++ (record { ts = now; source = "api"; action = "override_added"; details = body.details }
          ∷ []);
}

-- `/sync`, and a round of `sync_loop`: the state is written to the file and returned.
unfoldable pub sync : LocalTime → ℕ → LocalTime → Db → TimetableState × Option TimetableState
sync slots_now overrides_now now db =
    let state = compute_state slots_now overrides_now now db in (state, some state)
