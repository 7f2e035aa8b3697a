-- ===== src/Adaptive/Security/Merging.antt =====
-- examples/campus_controller.py: the lists and numbers that `_normalize_security_policy` collects, merges
-- and bounds.
use ai_driven_software_defin.Base.{
  ℕ, ◌≤◌, ◌<◌, max, Bool, true, List, [], ◌∷◌, ◌++◌, All-append, In, All, All-In, member, add, ◌≡◌,
  refl, ◌∙◌, arith, inl, inr, if◌then◌else◌, if-both, Comparable, nat_eq, string_eq, member-add,
}
use ai_driven_software_defin.Adaptive.Zones.{
  Field, missing, invalid, number, below_zero, or_list, collect, every, is_port, merge_into, clamp,
}

module _ {A : Type 0} ⦃e : Comparable A⦄ where
  add-All : (P : A → Type 0) (a : A) (xs : List A) → P a → All P xs → All P (add a xs)
  unfolding add
  add-All P a xs p h =
      if-both (All P) (member a xs) xs (xs ++ (a ∷ [])) (λ m. h)
        (λ m. All-append P xs (a ∷ []) h (p, tt))

  pub collect-All :
      (P : A → Type 0) (test : A → Bool) (xs seen : List A)
      → ((a : A) → test a ≡ true → In a xs → P a)
      → All P seen
      → All P (collect test xs seen)
  unfolding collect
  collect-All P test [] seen h s = s
  collect-All P test (x ∷ xs) seen h s =
      collect-All P test xs (if test x then add x seen else seen) (λ a t m. h a t (inr m))
        (if-both (All P) (test x) (add x seen) seen (λ t. add-All P x seen (h x t (inl refl)) s)
          (λ t. s))

  collect-In :
      (test : A → Bool) (xs seen : List A) (a : A)
      → member a seen ≡ true
      → member a (collect test xs seen) ≡ true
  unfolding collect
  collect-In test [] seen a m = m
  collect-In test (x ∷ xs) seen a m = collect-In test xs (if test x then add x seen else seen) a (
      if-both (λ l. member a l ≡ true) (test x) (add x seen) seen
        (λ t. member-add a x seen ∙ ground (arith, m)) (λ t. m))

pub or_list-All :
    {A : Type 0} (P : A → Type 0) (xs other : List A)
    → All P xs
    → All P other
    → All P (or_list xs other)
unfolding or_list
or_list-All P [] other a b = b
or_list-All P (x ∷ xs) other a b = a

or_list-In : (xs other : List ℕ) (a : ℕ) → member a xs ≡ true → member a (or_list xs other) ≡ true
unfolding or_list member
or_list-In [] other a m = absurd (cc)
or_list-In (x ∷ xs) other a m = m

pub clamp-le :
    (low high initial failed : ℕ) (f : Field)
    → failed ≤ max low high
    → clamp low high initial failed f ≤ max low high
unfolding clamp
clamp-le low high initial failed missing h = omega arith
clamp-le low high initial failed invalid h = h
clamp-le low high initial failed (number n) h = omega arith
clamp-le low high initial failed (below_zero n) h = omega arith

pub clamp-ge :
    (low high initial failed : ℕ) (f : Field)
    → (f ≡ invalid → low ≤ failed)
    → low ≤ clamp low high initial failed f
unfolding clamp
clamp-ge low high initial failed missing h = omega arith
clamp-ge low high initial failed invalid h = h refl
clamp-ge low high initial failed (number n) h = omega arith
clamp-ge low high initial failed (below_zero n) h = omega arith

abbrev pub IsPort : ℕ → Type 0
IsPort port = (0 < port) × (port ≤ 65535)

pub is_port-IsPort : (port : ℕ) → is_port port ≡ true → IsPort port
is_port-IsPort port h = ground arith

pub merge_into-IsPort :
    (raws defaults : List ℕ) → All IsPort defaults → All IsPort (merge_into raws defaults)
unfolding merge_into
merge_into-IsPort raws defaults h =
    let ports = collect is_port raws [] in
    let valid : All IsPort ports =
      collect-All IsPort is_port raws [] (λ a t m. is_port-IsPort a t) tt in
    or_list-All IsPort (collect every ports defaults) defaults
      (collect-All IsPort every ports defaults (λ a t m. All-In IsPort ports valid m) h) h

pub merge_into-In :
    (raws defaults : List ℕ) (port : ℕ)
    → member port defaults ≡ true
    → member port (merge_into raws defaults) ≡ true
unfolding merge_into
merge_into-In raws defaults port m =
    let ports = collect is_port raws [] in
    or_list-In (collect every ports defaults) defaults port (collect-In every ports defaults port m)
