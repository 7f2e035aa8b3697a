-- ===== src/Base/Sets.antt =====
-- A Python `set` as a list without repetition: what `add` and `discard` do to the members.
use mathlib.Core.Path.{◌≡◌, refl}
use mathlib.Core.Logic.{inl, inr}
use mathlib.Core.Bool.{not, ◌&&◌, ◌||◌}
use mathlib.Core.List.{List, [], ◌∷◌, ◌++◌}
use native.Mathlib.Omega.{arith}
use ai_driven_software_defin.Base.Tests.{Bool-cases}
use ai_driven_software_defin.Base.Lists.{keep}
use ai_driven_software_defin.Base.Equality.{Comparable, ◌==◌, eq→path}
use ai_driven_software_defin.Base.Dictionary.{member, add}

module _ {A : Type 0} ⦃e : Comparable A⦄ where
  -- `s.discard(a)`.
  unfoldable pub discard : A → List A → List A
  discard a xs = keep (λ x. not (x == a)) xs

  member-snoc : (k a : A) (xs : List A) → member k (xs ++ (a ∷ [])) ≡ (member k xs || (a == k))
  unfolding member
  member-snoc k a [] = ground arith
  member-snoc k a (x ∷ xs) = ground (arith, member-snoc k a xs)

  pub member-add : (k a : A) (xs : List A) → member k (add a xs) ≡ ((a == k) || member k xs)
  unfolding add
  member-add k a xs = elim (Bool-cases (member a xs)) [
    | inl p ↦ rw p (elim (Bool-cases (a == k)) [
      | inl q ↦ rw q (rw (← eq→path a k q, p) refl)
      | inr q ↦ rw q refl
    ])
    | inr p ↦ rw p (ground (arith, member-snoc k a xs))
  ]

  pub member-discard :
      (k a : A) (xs : List A) → member k (discard a xs) ≡ (not (a == k) && member k xs)
  unfolding discard member
  member-discard k a [] = ground arith
  member-discard k a (x ∷ xs) =
      ground (arith, member-discard k a xs, e.same_iff x a, e.same_iff a k, e.same_iff x k)
