-- ===== src/Agent/Replay.antt =====
-- tumba_sdn/ml/dqn_agent.py: what the replay buffer holds after any rounds of the loop.
use ai_driven_software_defin.Base.{
  ℕ, ◌≤◌, ◌≡◌, refl, sym, ◌∙◌, max, zero, suc, Option, none, some, List, [], ◌∷◌, ◌++◌, drop,
  last_n, length, length-last_n, arith,
}
use ai_driven_software_defin.Agent.Loop.{
  RewardParts, Transition, Agent, init, add_transition, remember, Observation, round, rounds,
  calculate_reward,
}

module _ (V : Type 0) where
  -- Each transition starts where the one before it ended, and the last ended in `v`.
  abbrev pub Chained : List (Transition V) → V → Type 0
  Chained [] v = Unit
  Chained (t ∷ []) v = t.next_state ≡ v
  Chained (t ∷ u ∷ ts) v = (t.next_state ≡ u.state) × Chained (u ∷ ts) v

  -- Before the first transition both are missing and the buffer is empty.
  abbrev pub Follows : Option V → Option ℕ → List (Transition V) → Type 0
  Follows none none buf = buf ≡ []
  Follows (some p) (some a) buf = Chained buf p
  Follows none (some a) buf = ⊥
  Follows (some p) none buf = ⊥

  pub record IsValid (capacity : ℕ) (s : Agent V) : Type 0 where
    pub follows : Follows s.prev_state s.prev_action s.replay
    pub bounded : length s.replay ≤ max 128 capacity

  Chained-append :
      (ts : List (Transition V)) (p : V) (t : Transition V)
      → t.state ≡ p
      → Chained ts p
      → Chained (ts ++ (t ∷ [])) t.next_state
  Chained-append [] p t e h = refl
  Chained-append (u ∷ []) p t e h = (h ∙ sym e, refl)
  Chained-append (u ∷ w ∷ ts) p t e h = (h.0, Chained-append (w ∷ ts) p t e h.1)

  Chained-drop : (n : ℕ) (ts : List (Transition V)) (v : V) → Chained ts v → Chained (drop n ts) v
  Chained-drop zero ts v h = h
  Chained-drop (suc n) [] v h = h
  Chained-drop (suc n) (t ∷ []) v h = Chained-drop n [] v tt
  Chained-drop (suc n) (t ∷ u ∷ ts) v h = Chained-drop n (u ∷ ts) v h.1

  remember-Follows :
      (capacity : ℕ) (reward : RewardParts) (v : V) (prev : Option V) (action : Option ℕ) (a : ℕ)
      (buf : List (Transition V))
      → Follows prev action buf
      → Follows (some v) (some a) (remember V capacity reward v prev action buf)
  unfolding remember add_transition last_n
  remember-Follows capacity reward v none none a buf h = rw h tt
  remember-Follows capacity reward v (some p) (some b) a buf h =
      Chained-drop _ (buf ++ (_ ∷ [])) v (
        Chained-append buf p (record { state = p; action = b; reward = reward; next_state = v })
          refl h)
  remember-Follows capacity reward v none (some b) a buf h = absurd h
  remember-Follows capacity reward v (some p) none a buf h = absurd h

  length-remember :
      (capacity : ℕ) (reward : RewardParts) (v : V) (prev : Option V) (action : Option ℕ)
      (buf : List (Transition V))
      → length buf ≤ max 128 capacity
      → length (remember V capacity reward v prev action buf) ≤ max 128 capacity
  unfolding remember add_transition
  length-remember capacity reward v (some p) (some b) buf h =
      omega (arith, length-last_n (max 128 capacity) (buf ++ (_ ∷ [])))
  length-remember capacity reward v none action buf h = h
  length-remember capacity reward v (some p) none buf h = h

  round-IsValid :
      (capacity : ℕ) (o : Option (Observation V)) (s : Agent V)
      → IsValid capacity s
      → IsValid capacity (round V capacity o s)
  unfolding round
  round-IsValid capacity none s h = h
  round-IsValid capacity (some o) s h = record {
    follows =
        remember-Follows capacity (calculate_reward o.features) o.state_vec s.prev_state
          s.prev_action o.action s.replay h.follows;
    bounded =
        length-remember capacity (calculate_reward o.features) o.state_vec s.prev_state
          s.prev_action s.replay h.bounded;
  }

  rounds_from :
      (capacity : ℕ) (os : List (Option (Observation V))) (s : Agent V)
      → IsValid capacity s
      → IsValid capacity (rounds V capacity os s)
  unfolding rounds
  rounds_from capacity [] s h = h
  rounds_from capacity (o ∷ os) s h =
      rounds_from capacity os (round V capacity o s) (round-IsValid capacity o s h)

  -- After any rounds, also ones without metrics: each transition of the replay buffer starts in the
  -- state in which the one before it ended, the last ended in the agent's current state, and the
  -- buffer holds at most its capacity, which is at least 128.
  pub rounds-IsValid :
      (capacity : ℕ) (os : List (Option (Observation V)))
      → IsValid capacity (rounds V capacity os (init V))
  unfolding init
  rounds-IsValid capacity os =
      rounds_from capacity os (init V) (record { follows = refl; bounded = omega arith })
