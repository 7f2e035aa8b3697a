-- ===== src/Base/Outcomes.antt =====
-- A computation that may raise an exception: the value at its end, and how it ended.
use mathlib.Core.Bool.{Bool, true, false, ◌&&◌}

pub data Outcome (A : Type 0) : Type 0 where
  returned raised : A → Outcome A

-- What follows a computation, unless it raises.
unfoldable pub then_do : {A : Type 0} → Outcome A → (A → Outcome A) → Outcome A
then_do (returned a) f = f a
then_do (raised a) f = raised a

-- `try: ... except Exception`.
unfoldable pub caught : {A : Type 0} → Outcome A → Outcome A
caught (returned a) = returned a
caught (raised a) = returned a

-- The value satisfies `P`, however the computation ended.
abbrev pub Holds : {A : Type 0} → (A → Type 0) → Outcome A → Type 0
Holds P (returned a) = P a
Holds P (raised a) = P a

-- The computation returns exactly if the flag says so, and its value then satisfies `P`.
abbrev pub Returns : {A : Type 0} → (A → Type 0) → Bool → Outcome A → Type 0
Returns P true (returned a) = P a
Returns P true (raised a) = ⊥
Returns P false (returned a) = ⊥
Returns P false (raised a) = Unit

pub then_do-Holds :
    {A : Type 0} (P : A → Type 0) (o : Outcome A) (f : A → Outcome A)
    → Holds P o
    → ((a : A) → P a → Holds P (f a))
    → Holds P (then_do o f)
unfolding then_do
then_do-Holds P (returned a) f h k = k a h
then_do-Holds P (raised a) f h k = h

pub caught-Holds : {A : Type 0} (P : A → Type 0) (o : Outcome A) → Holds P o → Holds P (caught o)
unfolding caught
caught-Holds P (returned a) h = h
caught-Holds P (raised a) h = h

pub then_do-Returns :
    {A : Type 0} (P : A → Type 0) (b c : Bool) (o : Outcome A) (f : A → Outcome A)
    → Returns (λ a. Unit) b o
    → ((a : A) → Returns P c (f a))
    → Returns P (b && c) (then_do o f)
unfolding then_do
then_do-Returns P true c (returned a) f h k = k a
then_do-Returns P true c (raised a) f h k = absurd h
then_do-Returns P false c (returned a) f h k = absurd h
then_do-Returns P false c (raised a) f h k = tt
