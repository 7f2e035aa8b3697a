-- ===== src/Timetable/Exams.antt =====
-- tumba_sdn/timetable/timetable_engine.py: when `compute_state` reports an exam.
use ai_driven_software_defin.Base.{
  ℕ, ◌+◌, ◌≡◌, ◌⊎◌, ◌↔◌, inl, inr, refl, sym, ap, ◌∙◌, Bool, true, false, ◌&&◌, ◌||◌, List, [], ◌∷◌,
  ◌++◌, keep, any, In, or_else, ltb, leb, nat_beq, ◌==◌, string_eq, Bool-cases, arith,
}
use ai_driven_software_defin.Timetable.Database.{Slot, Override, Db, insert_slots, new_db, init_db}
use ai_driven_software_defin.Timetable.Engine.{
  LocalTime, time_of_day, is_current, get_active_slots, is_in_force, get_active_overrides, is_exam,
  is_exam_override, exam_active, compute_state, OverrideRequest, post_override,
}

any-keep :
    {A : Type 0} (p q : A → Bool) (xs : List A) → any p (keep q xs) ≡ any (λ x. p x && q x) xs
any-keep p q [] = refl
any-keep p q (x ∷ xs) = ground (arith, any-keep p q xs)

pub any-append :
    {A : Type 0} (p : A → Bool) (xs ys : List A) → any p (xs ++ ys) ≡ (any p xs || any p ys)
any-append p [] ys = refl
any-append p (x ∷ xs) ys = ground (arith, any-append p xs ys)

any_found :
    {A : Type 0} (p : A → Bool) (xs : List A) → any p xs ≡ true → (a : A) × In a xs × (p a ≡ true)
any_found p [] h = absurd (cc)
any_found p (x ∷ xs) h = elim (Bool-cases (p x)) [
  | inl holds ↦ (x, inl refl, holds)
  | inr fails ↦ let r = any_found p xs (ground (arith, h, fails)) in (r.0, inr r.1, r.2)
]

any_of_In :
    {A : Type 0} (p : A → Bool) (xs : List A) (a : A) → In a xs → p a ≡ true → any p xs ≡ true
any_of_In p [] a m h = absurd m
any_of_In p (x ∷ xs) a (inl e) h = ground (arith, ap p e, h)
any_of_In p (x ∷ xs) a (inr m) h = ground (arith, any_of_In p xs a m h)

or_cases : (a b : Bool) → (a || b) ≡ true → (a ≡ true) ⊎ (b ≡ true)
or_cases true b h = inl refl
or_cases false b h = inr h

pub exam_active-keep :
    (slots : List Slot) (overrides : List Override) (p : Slot → Bool) (q : Override → Bool)
    → exam_active (keep p slots) (keep q overrides)
      ≡ (any (λ s. is_exam s && p s) slots || any (λ o. is_exam_override o && q o) overrides)
unfolding exam_active
exam_active-keep slots overrides p q =
    rw (any-keep is_exam p slots, any-keep is_exam_override q overrides) refl

-- The computed state reports an exam exactly if an exam slot of the timetable is current, or an
-- override of the kind `exam_mode` is in force.
pub exam_flag_iff :
    (slots_now : LocalTime) (overrides_now : ℕ) (now : LocalTime) (db : Db)
    → ((compute_state slots_now overrides_now now db).exam_flag ≡ true) ↔ (
        ((s : Slot) × In s db.slots × ((is_exam s && is_current slots_now s) ≡ true))
        ⊎ ((o : Override) × In o db.overrides
            × ((is_exam_override o && is_in_force overrides_now o) ≡ true)))
unfolding compute_state exam_active get_active_slots get_active_overrides
exam_flag_iff slots_now overrides_now now db =
    let p : Slot → Bool = λ s. is_exam s && is_current slots_now s in
    let q : Override → Bool = λ o. is_exam_override o && is_in_force overrides_now o in
    let whole =
      exam_active-keep db.slots db.overrides (is_current slots_now) (is_in_force overrides_now) in
    (
      λ h. elim (or_cases (any p db.slots) (any q db.overrides) (sym whole ∙ h)) [
        | inl slot ↦ inl (any_found p db.slots slot)
        | inr override ↦ inr (any_found q db.overrides override)
      ],
      λ h. whole ∙ elim h [
        | inl slot ↦ ground (arith, any_of_In p db.slots slot.0 slot.1 slot.2)
        | inr override ↦ ground (arith, any_of_In q db.overrides override.0 override.1 override.2)
      ],
    )

-- An override for an exam sets the flag before its time is over, whatever the timetable says, and has
-- no influence on the flag from then on; one whose time is 0 never ends.
pub exam_override_lem :
    (posted : ℕ) (body : OverrideRequest) (slots_now : LocalTime) (t : ℕ) (now : LocalTime)
    (db : Db)
    → or_else body.kind "exam_mode" ≡ "exam_mode"
    → (compute_state slots_now t now (post_override posted body db)).exam_flag ≡ (
        (compute_state slots_now t now db).exam_flag
        || (nat_beq (posted + or_else body.duration_ms 3600000) 0
            || ltb t (posted + or_else body.duration_ms 3600000)))
unfolding compute_state get_active_slots get_active_overrides post_override
exam_override_lem posted body slots_now t now db kind =
    rw
      (
        exam_active-keep db.slots db.overrides (is_current slots_now) (is_in_force t),
        exam_active-keep db.slots (post_override posted body db).overrides (is_current slots_now)
            (is_in_force t),
        any-append (λ o. is_exam_override o && is_in_force t o) db.overrides _,
      )
      (ground (arith, string_eq.same_iff (or_else body.kind "exam_mode") "exam_mode", kind))

-- With the sample timetable alone, an exam is reported exactly on Tuesday from 10:00 to 12:00 and on
-- Thursday from 8:00 to 10:00.
pub sample_exams :
    (slots_now : LocalTime) (overrides_now : ℕ) (now : LocalTime)
    → (compute_state slots_now overrides_now now (init_db new_db)).exam_flag ≡ (
        ("TUE" == slots_now.day
          && leb 600 (time_of_day slots_now)
          && ltb (time_of_day slots_now) 720)
        || ("THU" == slots_now.day
            && leb 480 (time_of_day slots_now)
            && ltb (time_of_day slots_now) 600))
unfolding compute_state exam_active get_active_slots get_active_overrides init_db insert_slots
sample_exams slots_now overrides_now now =
    rw (any-keep is_exam (is_current slots_now) (init_db new_db).slots) (ground arith)
