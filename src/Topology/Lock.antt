-- ===== src/Topology/Lock.antt =====
-- Code under a `threading.Lock`, as tumba_sdn/controller/topology_manager.py uses it: the lock is
-- not reentrant, so an acquisition while it is held never returns. `blocked` keeps the state in
-- which the thread waits.
use ai_driven_software_defin.Base.{◌≡◌}

pub data Outcome (S A : Type 0) : Type 0 where
  done : A → S → Outcome S A
  blocked : S → Outcome S A

abbrev pub M : Type 0 → Type 0 → Type 0
M S A = S → Outcome S A

infixl 5 ◌>>=◌ ◌>>◌
abbrev pub ◌>>=◌ : {S A B : Type 0} → M S A → (A → M S B) → M S B
◌>>=◌ m f s = elim (m s) [ done a s' ↦ f a s' | blocked s' ↦ blocked s' ]

abbrev pub ◌>>◌ : {S A B : Type 0} → M S A → M S B → M S B
◌>>◌ m k s = elim (m s) [ done a s' ↦ k s' | blocked s' ↦ blocked s' ]

abbrev pub pure : {S A : Type 0} → A → M S A
pure a s = done a s

-- The state that an outcome leaves.
abbrev pub final : {S A : Type 0} → Outcome S A → S
final (done a s) = s
final (blocked s) = s

-- A thread that waits in the second of two steps waits.
pub >>-blocked :
    {S A B : Type 0} (m : M S A) (k : M S B) {a : A} {s s' t : S}
    → m s ≡ done a s'
    → k s' ≡ blocked t
    → ◌>>◌ m k s ≡ blocked t
>>-blocked m k e f = rw (e, ◌>>◌) f

pub >>=-blocked :
    {S A B : Type 0} (m : M S A) (k : A → M S B) {s t : S}
    → m s ≡ blocked t
    → ◌>>=◌ m k s ≡ blocked t
>>=-blocked m k e = rw (e, ◌>>=◌)
