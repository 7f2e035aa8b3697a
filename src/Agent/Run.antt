-- ===== src/Agent/Run.antt =====
-- tumba_sdn/ml/dqn_agent.py: the loop of `run`, on fuel. What a round reads is given by
-- the number of the round; the final saving of the model is left out.
use ai_driven_software_defin.Base.{
  ℕ, zero, suc, ◌+◌, ◌≤◌, ◌<◌, ◌≡◌, refl, Bool, true, false, ◌&&◌, Option, none, some, List, [],
  ◌∷◌, ltb, leb, if◌then◌else◌, arith,
}
use ai_driven_software_defin.Agent.Loop.{Agent, Observation, round, rounds}

module _ (V : Type 0) (capacity max_steps : ℕ) (observe : ℕ → Option (Observation V)) where
  -- `0 < max_steps <= loops`.
  abbrev pub is_last : ℕ → Bool
  is_last loops = ltb 0 max_steps && leb max_steps loops

  -- The rounds after the first `loops`; none if the fuel runs out before the loop breaks.
  unfoldable pub run : ℕ → ℕ → Agent V → Option (Agent V)
  unfolding round
  run zero loops s = none
  run (suc fuel) loops s =
      let next = round V capacity (observe (loops + 1)) s in
      let rest = run fuel (loops + 1) next in if is_last (loops + 1) then some next else rest

  -- What the given number of rounds after the first `loops` read.
  unfoldable pub observations : ℕ → ℕ → List (Option (Observation V))
  observations loops zero = []
  observations loops (suc n) = observe (loops + 1) ∷ observations (loops + 1) n

  run_from :
      (n fuel loops : ℕ) (s : Agent V)
      → (suc n + loops) ≡ max_steps
      → suc n ≤ fuel
      → run fuel loops s ≡ some (rounds V capacity (observations loops (suc n)) s)
  unfolding run rounds observations
  run_from n zero loops s e h = absurd (omega arith)
  run_from zero (suc fuel) loops s e h =
      let last : is_last (loops + 1) ≡ true = ground arith in rw last refl
  run_from (suc n) (suc fuel) loops s e h =
      let more : is_last (loops + 1) ≡ false = ground arith in
      rw more (
        run_from n fuel (loops + 1) (round V capacity (observe (loops + 1)) s) (omega arith)
          (omega arith))

  rounds_from :
      (fuel n : ℕ) (s : Agent V)
      → n ≡ max_steps
      → 0 < n
      → n ≤ fuel
      → run fuel 0 s ≡ some (rounds V capacity (observations 0 n) s)
  rounds_from fuel zero s e p h = absurd (omega arith)
  rounds_from fuel (suc n) s e p h = run_from n fuel 0 s (omega arith) h

  -- With a positive `max_steps` the loop ends after exactly `max_steps` rounds, whatever they read:
  -- that much fuel is enough, and the agent is then what these rounds make of it.
  pub run_lem :
      (fuel : ℕ) (s : Agent V)
      → 0 < max_steps
      → max_steps ≤ fuel
      → run fuel 0 s ≡ some (rounds V capacity (observations 0 max_steps) s)
  run_lem fuel s p h = rounds_from fuel max_steps s refl p h

  -- Without one no fuel is enough.
  pub run_endless : (fuel loops : ℕ) (s : Agent V) → max_steps ≡ 0 → run fuel loops s ≡ none
  unfolding run
  run_endless zero loops s e = refl
  run_endless (suc fuel) loops s e =
      let more : is_last (loops + 1) ≡ false = ground arith in
      rw more (run_endless fuel (loops + 1) (round V capacity (observe (loops + 1)) s) e)
