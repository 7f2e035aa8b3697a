-- ===== src/Base/Expiry.antt =====
-- Dictionaries with one entry for each key, and the removal of the entries that pass a test: the
-- `expired = [k for k, v in m.items() if test(v)]`, `for k in expired: m.pop(k, None)` of the source.
use mathlib.Core.Path.{◌≡◌, refl}
use mathlib.Core.Bool.{Bool, false, ◌||◌}
use mathlib.Core.Option.{Option, none, some}
use mathlib.Core.List.{List, [], ◌∷◌}
use native.Mathlib.Omega.{arith}
use ai_driven_software_defin.Base.Tests.{if◌then◌else◌, Bool-cases}
use ai_driven_software_defin.Base.Equality.{Comparable, ◌==◌}
use ai_driven_software_defin.Base.Dictionary.{
  Dict, lookup, insert, erase, has_key, member, lookup-erase, has_key-false,
}
use mathlib.Core.Logic.{inl, inr}

module _ {V : Type 0} where
  -- What an expiry by the test leaves of a value.
  abbrev pub unless : (V → Bool) → Option V → Option V
  unless test none = none
  unless test (some v) = if test v then none else some v

  abbrev pub holds : (V → Bool) → Option V → Bool
  holds test none = false
  holds test (some v) = test v

module _ {K V : Type 0} ⦃e : Comparable K⦄ where
  abbrev pub Unique : Dict K V → Type 0
  Unique [] = Unit
  Unique ((k, v) ∷ m) = (has_key k m ≡ false) × Unique m

  unfoldable pub keys_where : (V → Bool) → Dict K V → List K
  keys_where test [] = []
  keys_where test ((k, v) ∷ m) = let rest = keys_where test m in if test v then k ∷ rest else rest

  unfoldable pub pop_all : List K → Dict K V → Dict K V
  pop_all [] m = m
  pop_all (k ∷ ks) m = pop_all ks (erase k m)

  pub lookup-pop_all :
      (k : K) (ks : List K) (m : Dict K V)
      → lookup k (pop_all ks m) ≡ (if member k ks then none else lookup k m)
  unfolding pop_all member
  lookup-pop_all k [] m = refl
  lookup-pop_all k (j ∷ ks) m = ground (arith, lookup-pop_all k ks (erase j m), lookup-erase j k m)

  pub member-keys_where :
      (test : V → Bool) (k : K) (m : Dict K V)
      → Unique m
      → member k (keys_where test m) ≡ holds test (lookup k m)
  unfolding keys_where member lookup has_key
  member-keys_where test k [] u = refl
  member-keys_where test k ((j, v) ∷ m) u =
      ground (arith, member-keys_where test k m u.1, has_key-false j m u.0, e.same_iff j k)

  -- A key is left with its value exactly if the value does not pass the test.
  pub lookup-expire :
      (test : V → Bool) (k : K) (m : Dict K V)
      → Unique m
      → lookup k (pop_all (keys_where test m) m) ≡ unless test (lookup k m)
  lookup-expire test k m u =
      ground (arith, lookup-pop_all k (keys_where test m) m, member-keys_where test k m u)

  pub has_key-insert :
      (k j : K) (v : V) (m : Dict K V) → has_key j (insert k v m) ≡ ((k == j) || has_key j m)
  unfolding has_key insert
  has_key-insert k j v [] = refl
  has_key-insert k j v ((i, w) ∷ m) =
      ground (arith, has_key-insert k j v m, e.same_iff i k, e.same_iff i j, e.same_iff k j)

  has_key-erase_le : (k j : K) (m : Dict K V) → has_key j m ≡ false → has_key j (erase k m) ≡ false
  unfolding has_key erase
  has_key-erase_le k j [] h = h
  has_key-erase_le k j ((i, w) ∷ m) h = ground (arith, has_key-erase_le k j m)

  pub insert-Unique : (k : K) (v : V) (m : Dict K V) → Unique m → Unique (insert k v m)
  unfolding insert has_key
  insert-Unique k v [] u = (refl, tt)
  insert-Unique k v ((i, w) ∷ m) u = elim (Bool-cases (i == k)) [
    | inl y ↦ rw y u
    | inr n ↦ rw n (
      ground (arith, has_key-insert k i v m, e.same_iff k i, e.same_iff i k),
      insert-Unique k v m u.1,
    )
  ]

  erase-Unique : (k : K) (m : Dict K V) → Unique m → Unique (erase k m)
  unfolding erase
  erase-Unique k [] u = u
  erase-Unique k ((i, w) ∷ m) u = elim (Bool-cases (i == k)) [
    | inl y ↦ rw y (erase-Unique k m u.1)
    | inr n ↦ rw n (has_key-erase_le k i m u.0, erase-Unique k m u.1)
  ]

  pub pop_all-Unique : (ks : List K) (m : Dict K V) → Unique m → Unique (pop_all ks m)
  unfolding pop_all
  pop_all-Unique [] m u = u
  pop_all-Unique (k ∷ ks) m u = pop_all-Unique ks (erase k m) (erase-Unique k m u)
