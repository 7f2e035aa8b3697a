-- ===== src/Monitor/Streak.antt =====
-- The abstract congestion alarm of a port: a counter of high readings in a row. The history of
-- `congestion_history` in tumba_sdn/controller/traffic_monitor.py forgets all but ten readings.
use ai_driven_software_defin.Base.{
  ℕ, zero, ap, sym, ◌+◌, ◌-◌, ◌≤◌, suc, Bool, ◌&&◌, List, [], ◌∷◌, ◌++◌, drop, last_n, length, all,
  leb, if◌then◌else◌, ◌≡◌, refl, arith, length-append, ◌∙◌, length-drop,
}
use ai_driven_software_defin.Monitor.Stats.{all_recent}

-- The number of high readings in a row at the end, counted on from `n`.
unfoldable pub streak : ℕ → List Bool → ℕ
streak n [] = n
streak n (high ∷ readings) = streak (if high then n + 1 else 0) readings

module _ {A : Type 0} where
  drop-nil : (n : ℕ) → drop {A = A} n [] ≡ []
  drop-nil zero = refl
  drop-nil (suc n) = refl

  drop-drop : (a b : ℕ) (xs : List A) → drop a (drop b xs) ≡ drop (b + a) xs
  drop-drop a zero xs = ap (λ n. drop n xs) (omega arith)
  drop-drop a (suc b) [] = drop-nil a ∙ sym (drop-nil (suc b + a))
  drop-drop a (suc b) (x ∷ xs) =
      drop-drop a b xs
      ∙ ap (λ n. drop n (x ∷ xs)) (let e : suc (b + a) ≡ suc b + a = omega arith in e)

  drop-append_le : (n : ℕ) (xs ys : List A) → n ≤ length xs → drop n (xs ++ ys) ≡ drop n xs ++ ys
  drop-append_le zero xs ys h = refl
  drop-append_le (suc n) [] ys h = absurd (omega arith)
  drop-append_le (suc n) (x ∷ xs) ys h = drop-append_le n xs ys (omega arith)

  last_n-last_n : (k n : ℕ) (xs : List A) → k ≤ n → last_n k (last_n n xs) ≡ last_n k xs
  unfolding last_n
  last_n-last_n k n xs h =
      drop-drop (length (last_n n xs) - k) (length xs - n) xs
      ∙ ap (λ m. drop m xs) (omega (arith, length-drop (length xs - n) xs))

  -- A deque forgets nothing that it will need for the last `n` entries.
  pub last_n-snoc :
      (n : ℕ) (xs : List A) (x : A) → last_n n (last_n n xs ++ (x ∷ [])) ≡ last_n n (xs ++ (x ∷ []))
  unfolding last_n
  last_n-snoc n xs x =
      let m = length xs - n in
      let all : List A = xs ++ (x ∷ []) in
      ap (last_n n) (sym (drop-append_le m xs (x ∷ []) (omega arith)))
      ∙ drop-drop (length (drop m all) - n) m all
      ∙ ap (λ k. drop k all) (omega (arith, length-drop m all, length-append xs (x ∷ [])))

all_recent-long :
    (a b c d : Bool) (r : List Bool) → all_recent (a ∷ b ∷ c ∷ d ∷ r) ≡ all_recent (b ∷ c ∷ d ∷ r)
unfolding all_recent last_n
all_recent-long a b c d r =
    ap
      (λ n. let recent = drop n (a ∷ b ∷ c ∷ d ∷ r) in leb 3 (length recent) && all (λ h. h) recent)
      (let e : length (a ∷ b ∷ c ∷ d ∷ r) - 3 ≡ suc (length (b ∷ c ∷ d ∷ r) - 3) = omega arith in e)

long_streak :
    (n : ℕ) (a b c : Bool) (r : List Bool)
    → all_recent (a ∷ b ∷ c ∷ r) ≡ leb 3 (streak n (a ∷ b ∷ c ∷ r))
unfolding all_recent last_n streak
long_streak n a b c [] = ground arith
long_streak n a b c (d ∷ r) =
    all_recent-long a b c d r ∙ long_streak (if a then n + 1 else 0) b c d r

-- The test on the last three readings is the test on the counter.
pub all_recent-streak : (readings : List Bool) → all_recent readings ≡ leb 3 (streak 0 readings)
unfolding all_recent last_n streak
all_recent-streak [] = refl
all_recent-streak (a ∷ []) = ground arith
all_recent-streak (a ∷ b ∷ []) = ground arith
all_recent-streak (a ∷ b ∷ c ∷ r) = long_streak 0 a b c r

pub all_recent-last_n :
    (readings : List Bool) → all_recent (last_n 10 readings) ≡ all_recent readings
unfolding all_recent
all_recent-last_n readings =
    ap (λ recent. leb 3 (length recent) && all (λ h. h) recent)
      (last_n-last_n 3 10 readings (omega arith))
