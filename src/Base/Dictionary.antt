-- ===== src/Base/Dictionary.antt =====
-- A Python `dict` as an association list in insertion order: a write to a present key keeps its
-- place, a new key goes to the end, `pop` removes the key.
use mathlib.Core.Path.{◌≡◌, refl}
use mathlib.Core.Logic.{◌↔◌, ◌≢◌}
use mathlib.Core.Bool.{Bool, true, false, ◌||◌}
use mathlib.Core.Option.{Option, none, some}
use mathlib.Core.List.{List, [], ◌∷◌, ◌++◌, map}
use native.Mathlib.Omega.{arith}
use ai_driven_software_defin.Base.Tests.{if◌then◌else◌}
use ai_driven_software_defin.Base.Lists.{In}
use ai_driven_software_defin.Base.Equality.{Comparable, ◌==◌}

abbrev pub Dict {ℓ} : Type ℓ → Type ℓ → Type ℓ
Dict K V = List (K × V)

abbrev pub keys {ℓ} : {K V : Type ℓ} → Dict K V → List K
keys = map (λ e. e.0)

abbrev pub values {ℓ} : {K V : Type ℓ} → Dict K V → List V
values = map (λ e. e.1)

-- `m.get(k, d)` from the result of `m.get(k)`.
abbrev pub or_else {ℓ} : {A : Type ℓ} → Option A → A → A
or_else none d = d
or_else (some a) d = a

module _ {ℓ} {K V : Type ℓ} ⦃e : Comparable K⦄ where
  unfoldable pub lookup : K → Dict K V → Option V
  lookup k [] = none
  lookup k ((j, v) ∷ m) = if j == k then some v else lookup k m

  unfoldable pub insert : K → V → Dict K V → Dict K V
  insert k v [] = (k, v) ∷ []
  insert k v ((j, w) ∷ m) = if j == k then (j, v) ∷ m else (j, w) ∷ insert k v m

  unfoldable pub erase : K → Dict K V → Dict K V
  erase k [] = []
  erase k ((j, w) ∷ m) = if j == k then erase k m else (j, w) ∷ erase k m

  -- `k in m`.
  unfoldable pub has_key : K → Dict K V → Bool
  has_key k [] = false
  has_key k ((j, w) ∷ m) = (j == k) || has_key k m

  pub lookup-insert :
      (key other : K) (value : V) (dict : Dict K V)
      → lookup other (insert key value dict)
        ≡ (if key == other then some value else lookup other dict)
  unfolding insert lookup
  lookup-insert key other value [] = refl
  lookup-insert key other value ((i, w) ∷ dict) = ground (
    arith,
    lookup-insert key other value dict,
    e.same_iff key other,
    e.same_iff i key,
    e.same_iff i other,
  )

  pub lookup-insert_self : (k : K) (v : V) (m : Dict K V) → lookup k (insert k v m) ≡ some v
  lookup-insert_self k v m = ground (arith, lookup-insert k k v m, e.same_iff k k)

  pub lookup-insert_ne :
      (k j : K) (v : V) (m : Dict K V) → k ≢ j → lookup j (insert k v m) ≡ lookup j m
  lookup-insert_ne k j v m h = ground (arith, lookup-insert k j v m, e.same_iff k j)

  pub lookup-erase :
      (k j : K) (m : Dict K V) → lookup j (erase k m) ≡ (if k == j then none else lookup j m)
  unfolding lookup erase
  lookup-erase k j [] = ground arith
  lookup-erase k j ((i, w) ∷ m) =
      ground (arith, e.same_iff k j, e.same_iff i k, e.same_iff i j, lookup-erase k j m)

  pub has_key-lookup : (k : K) (m : Dict K V) → (has_key k m ≡ true) ↔ (lookup k m ≢ none)
  unfolding lookup has_key
  has_key-lookup k [] = ground arith
  has_key-lookup k ((j, w) ∷ m) = ground (arith, has_key-lookup k m)

  pub has_key-false : (k : K) (m : Dict K V) → has_key k m ≡ false → lookup k m ≡ none
  unfolding lookup has_key
  has_key-false k [] h = refl
  has_key-false k ((j, w) ∷ m) h = ground (arith, has_key-false k m)

module _ {A : Type 0} ⦃e : Comparable A⦄ where
  -- `a in l`.
  unfoldable pub member : A → List A → Bool
  member a [] = false
  member a (x ∷ xs) = (x == a) || member a xs

  -- `s.add(a)`, the set as a list without repetition.
  unfoldable pub add : A → List A → List A
  unfolding member
  add a xs = if member a xs then xs else xs ++ (a ∷ [])

  pub member_iff : (a : A) (xs : List A) → (member a xs ≡ true) ↔ In a xs
  unfolding member
  member_iff a [] = (λ h. absurd (cc), λ h. absurd h)
  member_iff a (x ∷ xs) = ground (arith, member_iff a xs, e.same_iff x a)
