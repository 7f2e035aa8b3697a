-- ===== src/Timetable/Priorities.antt =====
-- tumba_sdn/timetable/timetable_engine.py: the zones' priorities that `compute_state` reports.
use ai_driven_software_defin.Base.{
  first_some, ℕ, ◌≡◌, ◌≢◌, refl, ap, ◌&&◌, ◌||◌, Option, none, some, List, [], ◌∷◌, String, Dict,
  lookup, insert, has_key, keep, or_else, ◌==◌, string_eq, if◌then◌else◌, Bool-cases, inl, inr,
  lookup-insert, has_key-false, arith,
}
use ai_driven_software_defin.Timetable.Database.{Slot, Db}
use ai_driven_software_defin.Timetable.Exams.{any-append, exam_active-keep}
use ai_driven_software_defin.Timetable.Engine.{
  LocalTime, is_current, is_in_force, get_active_slots, get_active_overrides, is_exam_override,
  exam_active, base_priorities, override_priority, override_priorities, compute_state,
  OverrideRequest, post_override,
}

-- The priority that the last of the slots of a zone with a priority gives it, if one does.
unfoldable pub last_override : String → List Slot → Option ℕ
last_override zone [] = none
last_override zone (s ∷ slots) =
    first_some (last_override zone slots) (if s.zone == zone then s.priority_override else none)

has_key-insert :
    (k z : String) (v : ℕ) (m : Dict String ℕ)
    → has_key z (insert k v m) ≡ ((k == z) || has_key z m)
unfolding has_key insert
has_key-insert k z v [] = refl
has_key-insert k z v ((j, w) ∷ m) = ground (
  arith,
  has_key-insert k z v m,
  string_eq.same_iff j k,
  string_eq.same_iff j z,
  string_eq.same_iff k z,
)

has_key-override_priority :
    (o : Option ℕ) (zone z : String) (ps : Dict String ℕ)
    → has_key z (override_priority o zone ps) ≡ has_key z ps
has_key-override_priority none zone z ps = refl
has_key-override_priority (some p) zone z ps = elim (Bool-cases (zone == z)) [
  | inl same ↦
      let q : zone ≡ z = ground (arith, string_eq.same_iff zone z) in
      rw q (ground (arith, has_key-insert z z p ps))
  | inr other ↦ ground (arith, has_key-insert zone z p ps, other)
]

lookup-override_priority :
    (o : Option ℕ) (zone z : String) (ps : Dict String ℕ)
    → lookup z (override_priority o zone ps)
      ≡ (if has_key z ps then first_some (if zone == z then o else none) (lookup z ps) else none)
lookup-override_priority none zone z ps = ground (arith, has_key-false z ps)
lookup-override_priority (some p) zone z ps = elim (Bool-cases (zone == z)) [
  | inl same ↦
      let q : zone ≡ z = ground (arith, string_eq.same_iff zone z) in
      rw q (ground (arith, lookup-insert z z p ps, string_eq.same_iff z z, has_key-false z ps))
  | inr other ↦ ground (arith, lookup-insert zone z p ps, other, has_key-false z ps)
]

lookup-override_priorities :
    (slots : List Slot) (z : String) (ps : Dict String ℕ)
    → lookup z (override_priorities slots ps)
      ≡ (if has_key z ps then first_some (last_override z slots) (lookup z ps) else none)
unfolding override_priorities last_override
lookup-override_priorities [] z ps = ground (arith, has_key-false z ps)
lookup-override_priorities (s ∷ slots) z ps =
    let rest =
      lookup-override_priorities slots z (override_priority s.priority_override s.zone ps) in
    ground (
      arith,
      rest,
      has_key-override_priority s.priority_override s.zone z ps,
      lookup-override_priority s.priority_override s.zone z ps,
    )

-- A zone's priority is the one that the last current slot of this zone with a priority gives, also
-- during an exam; without such a slot it is 1, 1, 2 and 3, or 1 for the student Wi-Fi if an exam is
-- reported. No other zone has a priority.
pub zone_priorities_lem :
    (slots_now : LocalTime) (overrides_now : ℕ) (now : LocalTime) (db : Db) (z : String)
    → let state = compute_state slots_now overrides_now now db in
      lookup z state.zone_priorities ≡ (
        if has_key z (base_priorities state.exam_flag)
        then first_some
            (last_override z state.active_slots)
            (lookup z (base_priorities state.exam_flag))
        else none)
unfolding compute_state
zone_priorities_lem slots_now overrides_now now db z =
    lookup-override_priorities (get_active_slots slots_now db) z (
      base_priorities
        (exam_active (get_active_slots slots_now db) (get_active_overrides overrides_now db)))

-- An override of another kind than `exam_mode` changes neither the exam flag nor a priority nor the
-- period, whatever its zone and value.
pub other_override_lem :
    (posted : ℕ) (body : OverrideRequest) (slots_now : LocalTime) (t : ℕ) (now : LocalTime)
    (db : Db)
    → or_else body.kind "exam_mode" ≢ "exam_mode"
    → let before = compute_state slots_now t now db in
      let after = compute_state slots_now t now (post_override posted body db) in
      (after.exam_flag ≡ before.exam_flag)
      × (after.zone_priorities ≡ before.zone_priorities)
      × (after.period ≡ before.period)
unfolding compute_state get_active_slots get_active_overrides post_override
other_override_lem posted body slots_now t now db kind =
    let same = flag in
    (
      same,
      ap (λ b. override_priorities (keep (is_current slots_now) db.slots) (base_priorities b)) same,
      refl,
    )
  where
    flag :
        exam_active
          (keep (is_current slots_now) db.slots)
          (keep (is_in_force t) (post_override posted body db).overrides)
        ≡ exam_active (keep (is_current slots_now) db.slots) (keep (is_in_force t) db.overrides)
    flag =
        rw
          (
            exam_active-keep db.slots db.overrides (is_current slots_now) (is_in_force t),
            exam_active-keep db.slots (post_override posted body db).overrides
                (is_current slots_now) (is_in_force t),
            any-append (λ o. is_exam_override o && is_in_force t o) db.overrides _,
          )
          (ground (arith, string_eq.same_iff (or_else body.kind "exam_mode") "exam_mode", kind))
