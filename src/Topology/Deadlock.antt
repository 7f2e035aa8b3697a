-- ===== src/Topology/Deadlock.antt =====
-- tumba_sdn/controller/topology_manager.py: `_write_state` calls `get_topology_summary`, which takes
-- `topology_lock`, and every handler that calls it holds this lock, which is not reentrant.
use ai_driven_software_defin.Base.{
  ℕ, ◌≡◌, refl, ◌∙◌, Bool, true, false, none, List, [], ◌∷◌, ◌++◌, last_n, add, member, Bool-cases,
  inl, inr, if◌then◌else◌, nat_eq,
}
use ai_driven_software_defin.Graph.{GraphOps}
use ai_driven_software_defin.Topology.Lock.{
  Outcome, blocked, final, M, ◌>>◌, ◌>>=◌, pure, >>-blocked, >>=-blocked,
}
use ai_driven_software_defin.Topology.Manager.{
  LinkInfo, PortStatus, switch_connected, port_up, Reason, Dispatcher, main_dispatcher,
  dead_dispatcher, State, init, acquire, release, with_lock, write_state, switch_features_handler,
  disconnect, state_change_handler, remove_links, set_port, port_status_handler, modify, add_link,
  monitor, has_src_port,
}

module _ (G : GraphOps ℕ LinkInfo) where
  -- The outcome is a thread that waits for the lock for ever: the lock is held, and neither a flow
  -- entry nor the state file has been written.
  abbrev pub Deadlocked : {A : Type 0} → State G → Outcome (State G) A → Type 0
  Deadlocked {A} s o =
      (t : State G) × (o ≡ blocked t)
      × (t.locked ≡ true)
      × (t.sent ≡ s.sent)
      × (t.state_file ≡ s.state_file)

  -- In every state, a switch that connects makes the handler wait for ever: it holds the lock that
  -- `_write_state` wants, so the switch never gets its table-miss entry and no state is written.
  pub switch_features_deadlock :
      (dpid : ℕ) (s : State G) → Deadlocked s (switch_features_handler G dpid s)
  unfolding switch_features_handler
  switch_features_deadlock dpid s = elim (Bool-cases s.locked) [
    | inl h ↦ (record s { datapaths = add dpid s.datapaths }, rw h refl, h, refl, refl)
    | inr h ↦ (
      record s {
        datapaths = add dpid s.datapaths;
        graph = G.add_node dpid s.graph;
        link_events = last_n 500 (s.link_events ++ (switch_connected dpid ∷ []));
        locked = true;
      },
      rw h refl,
      refl,
      refl,
      refl,
    )
  ]

  pub remove_links_keeps :
      (dpid port_no : ℕ) (neighbors : List ℕ) (s : State G)
      → ((remove_links G dpid port_no neighbors s).locked ≡ s.locked)
        × ((remove_links G dpid port_no neighbors s).sent ≡ s.sent)
        × ((remove_links G dpid port_no neighbors s).state_file ≡ s.state_file)
  unfolding remove_links
  remove_links_keeps dpid port_no [] s = (refl, refl, refl)
  remove_links_keeps dpid port_no (n ∷ neighbors) s =
      elim (Bool-cases (has_src_port G (G.edge_data dpid n s.graph) port_no)) [
        | inl e ↦ rw (e, remove_links) (remove_links_keeps dpid port_no neighbors _)
        | inr e ↦ rw (e, remove_links) (remove_links_keeps dpid port_no neighbors s)
      ]

  write_state_blocked : (s : State G) → s.locked ≡ true → write_state G s ≡ blocked s
  unfolding write_state
  write_state_blocked s h = rw h refl

  with_lock_blocked :
      (body : M (State G) (Unit {0})) (s t : State G)
      → s.locked ≡ false
      → body (record s { locked = true }) ≡ blocked t
      → with_lock G body s ≡ blocked t
  unfolding with_lock
  with_lock_blocked body s t h e =
      >>-blocked (acquire G) (◌>>=◌ body (λ a. ◌>>◌ (release G) (pure a))) (rw h refl)
        (>>=-blocked body (λ a. ◌>>◌ (release G) (pure a)) e)

  -- What `port_status_handler` does under the lock for a port that is down.
  abbrev failure_body : ℕ → ℕ → Reason → M (State G) (Unit {0})
  failure_body dpid port_no reason = do
    modify G (set_port G dpid port_no (record { is_up = false; reason = reason }))
    modify G (λ s.
        remove_links G dpid port_no
          (if G.has_node dpid s.graph then G.neighbors dpid s.graph else []) s)
    write_state G

  -- The state in which the handler waits after a port went down.
  unfoldable pub after_failure : ℕ → ℕ → Reason → State G → State G
  after_failure dpid port_no reason s =
      let s1 : State G =
        set_port G dpid port_no (record { is_up = false; reason = reason })
          (record s { locked = true }) in
      remove_links G dpid port_no
        (if G.has_node dpid s1.graph then G.neighbors dpid s1.graph else []) s1

  pub after_failure_keeps :
      (dpid port_no : ℕ) (reason : Reason) (s : State G)
      → ((after_failure dpid port_no reason s).locked ≡ true)
        × ((after_failure dpid port_no reason s).sent ≡ s.sent)
        × ((after_failure dpid port_no reason s).state_file ≡ s.state_file)
  unfolding after_failure set_port
  after_failure_keeps dpid port_no reason s = remove_links_keeps dpid port_no _ _

  pub port_down_blocked :
      (dpid port_no : ℕ) (reason : Reason) (s : State G)
      → s.locked ≡ false
      → port_status_handler G dpid port_no reason false s
        ≡ blocked (after_failure dpid port_no reason s)
  unfolding port_status_handler after_failure
  port_down_blocked dpid port_no reason s h =
      with_lock_blocked (failure_body dpid port_no reason) s _ h
        (write_state_blocked _ (after_failure_keeps dpid port_no reason s).0)

  -- In every state, a change of a port's status makes the handler wait for ever.
  pub port_status_deadlock :
      (dpid port_no : ℕ) (reason : Reason) (is_up : Bool) (s : State G)
      → Deadlocked s (port_status_handler G dpid port_no reason is_up s)
  unfolding port_status_handler set_port
  port_status_deadlock dpid port_no reason true s = elim (Bool-cases s.locked) [
    | inl h ↦ (s, rw h refl, h, refl, refl)
    | inr h ↦
        let status : PortStatus = record { is_up = true; reason = reason } in
        (
          record (set_port G dpid port_no status s) {
            link_events = last_n 500 (s.link_events ++ (port_up dpid port_no ∷ []));
            locked = true;
          },
          rw h refl,
          refl,
          refl,
          refl,
        )
  ]
  port_status_deadlock dpid port_no reason false s = elim (Bool-cases s.locked) [
    | inl h ↦ (s, rw h refl, h, refl, refl)
    | inr h ↦
        let (a, b, c) = after_failure_keeps dpid port_no reason s in
        (after_failure dpid port_no reason s, port_down_blocked dpid port_no reason s h, a, b, c)
  ]

  -- In every state, a round of the monitor waits for ever.
  pub monitor_deadlock : (s : State G) → Deadlocked s (monitor G s)
  unfolding monitor
  monitor_deadlock s = elim (Bool-cases s.locked) [
    | inl h ↦ (s, rw h refl, h, refl, refl)
    | inr h ↦ (record s { locked = true }, rw h refl, refl, refl, refl)
  ]

  -- What can start in a state, each as a thread of its own.
  pub data Call : Type 0 where
    connect : ℕ → Call
    state_change : ℕ → Dispatcher → Call
    port_status : ℕ → ℕ → Reason → Bool → Call
    link : ℕ → ℕ → ℕ → ℕ → ℕ → Call
    tick : Call

  pub run : Call → State G → Outcome (State G) (Unit {0})
  run (connect dpid) = switch_features_handler G dpid
  run (state_change dpid d) = state_change_handler G dpid d
  run (port_status dpid port_no reason is_up) = port_status_handler G dpid port_no reason is_up
  run (link a p b q w) = add_link G a p b q w
  run tick = monitor G

  -- The state after calls, each of which returned or waits.
  pub run_all : List Call → State G → State G
  run_all [] s = s
  run_all (c ∷ calls) s = run_all calls (final (run c s))

  abbrev Silent : State G → State G → Type 0
  Silent s t = (t.sent ≡ s.sent) × (t.state_file ≡ s.state_file)

  Deadlocked-Silent :
      (s : State G) (o : Outcome (State G) (Unit {0})) → Deadlocked s o → Silent s (final o)
  Deadlocked-Silent s o (t, e, l, a, b) = rw e (a, b)

  disconnect-Silent : (dpid : ℕ) (s : State G) → Silent s (final (disconnect G dpid s))
  unfolding disconnect
  disconnect-Silent dpid s = elim (Bool-cases s.locked) [
    | inl h ↦ rw h (refl, refl)
    | inr h ↦ rw h (refl, refl)
  ]

  run-Silent : (c : Call) (s : State G) → Silent s (final (run c s))
  unfolding run state_change_handler add_link
  run-Silent (connect dpid) s = Deadlocked-Silent s _ (switch_features_deadlock dpid s)
  run-Silent (state_change dpid main_dispatcher) s = (refl, refl)
  run-Silent (state_change dpid dead_dispatcher) s = elim (Bool-cases (member dpid s.datapaths)) [
    | inl e ↦ rw e (disconnect-Silent dpid s)
    | inr e ↦ rw e (refl, refl)
  ]
  run-Silent (port_status dpid port_no reason is_up) s =
      Deadlocked-Silent s _ (port_status_deadlock dpid port_no reason is_up s)
  run-Silent (link a p b q w) s = elim (Bool-cases s.locked) [
    | inl h ↦ rw h (refl, refl)
    | inr h ↦ rw h (refl, refl)
  ]
  run-Silent tick s = Deadlocked-Silent s _ (monitor_deadlock s)

  run_all-Silent : (calls : List Call) (s : State G) → Silent s (run_all calls s)
  unfolding run_all
  run_all-Silent [] s = (refl, refl)
  run_all-Silent (c ∷ calls) s =
      let (a, b) = run-Silent c s in
      let (x, y) = run_all-Silent calls (final (run c s)) in (x ∙ a, y ∙ b)

  -- Whatever calls come, in whatever order, the manager has sent no table-miss entry and has
  -- written no state file.
  pub never_publishes :
      (calls : List Call)
      → ((run_all calls (init G)).sent ≡ []) × ((run_all calls (init G)).state_file ≡ none)
  unfolding init
  never_publishes calls = run_all-Silent calls (init G)
