-- ===== src/Topology/Links.antt =====
-- tumba_sdn/controller/topology_manager.py: the links of the graph. What `add_link` stores is what
-- `is_link_up` reads, and what a port that goes down removes.
use ai_driven_software_defin.Base.{
  ℕ, ◌≡◌, ◌≢◌, refl, ◌∙◌, Bool, ◌||◌, true, false, ◌&&◌, none, some, List, [], ◌∷◌, member,
  Bool-cases, Option-cases, inl, inr, if◌then◌else◌, nat_eq, nat_beq, nat_beq_iff, arith, insert,
  pair_eq,
}
use ai_driven_software_defin.Graph.{GraphOps, same_edge}
use ai_driven_software_defin.Topology.Lock.{done, final}
use ai_driven_software_defin.Topology.Manager.{
  LinkInfo, Reason, State, has_src_port, remove_links, set_port, port_status_handler, is_link_up,
  add_link,
}
use ai_driven_software_defin.Topology.Deadlock.{after_failure, port_down_blocked}

module _ (G : GraphOps ℕ LinkInfo) where
  -- One turn of the loop, seen at an edge of the switch.
  abbrev turn : ℕ → ℕ → ℕ → State G → State G
  turn dpid port_no n s = remove_links G dpid port_no (n ∷ []) s

  turn_edge :
      (dpid port_no n v : ℕ) (s : State G)
      → G.edge_data dpid v (turn dpid port_no n s).graph ≡ (
          if nat_beq n v && has_src_port G (G.edge_data dpid v s.graph) port_no
          then none
          else G.edge_data dpid v s.graph)
  unfolding remove_links
  turn_edge dpid port_no n v s =
      elim (Bool-cases (has_src_port G (G.edge_data dpid n s.graph) port_no)) [
        | inl e ↦ rw e (
            rw (G.edge_data-remove_edge dpid n dpid v s.graph) (elim (Bool-cases (nat_beq n v)) [
              | inl q ↦
                  rw q (rw (← (nat_beq_iff n v).0 q, e) (ground (arith, nat_beq_iff dpid dpid)))
              | inr q ↦ rw q (
                  ground (
                    arith,
                    nat_beq_iff dpid dpid,
                    nat_beq_iff dpid v,
                    nat_beq_iff n dpid,
                    nat_beq_iff n v,
                  ))
            ]))
        | inr e ↦ rw e (elim (Bool-cases (nat_beq n v)) [
          | inl q ↦ rw q (rw (← (nat_beq_iff n v).0 q, e) refl)
          | inr q ↦ rw q refl
        ])
      ]

  remove_links_edge :
      (dpid port_no v : ℕ) (ns : List ℕ) (s : State G)
      → G.edge_data dpid v (remove_links G dpid port_no ns s).graph ≡ (
          if member v ns && has_src_port G (G.edge_data dpid v s.graph) port_no
          then none
          else G.edge_data dpid v s.graph)
  unfolding remove_links member
  remove_links_edge dpid port_no v [] s = refl
  remove_links_edge dpid port_no v (n ∷ ns) s =
      remove_links_edge dpid port_no v ns (turn dpid port_no n s)
      ∙ ground (arith, turn_edge dpid port_no n v s)

  -- An edge that touches the switch on neither end stays.
  remove_links_other :
      (dpid port_no u v : ℕ) (ns : List ℕ) (s : State G)
      → dpid ≢ u
      → dpid ≢ v
      → G.edge_data u v (remove_links G dpid port_no ns s).graph ≡ G.edge_data u v s.graph
  unfolding remove_links
  remove_links_other dpid port_no u v [] s a b = refl
  remove_links_other dpid port_no u v (n ∷ ns) s a b =
      remove_links_other dpid port_no u v ns (turn dpid port_no n s) a b
      ∙ elim (Bool-cases (has_src_port G (G.edge_data dpid n s.graph) port_no)) [
        | inl e ↦ rw e (
            G.edge_data-remove_edge dpid n u v s.graph
            ∙ ground (arith, nat_beq_iff dpid u, nat_beq_iff dpid v))
        | inr e ↦ rw e refl
      ]

  known_neighbors : ℕ → State G → List ℕ
  known_neighbors dpid s = if G.has_node dpid s.graph then G.neighbors dpid s.graph else []

  known_neighbors-member :
      (dpid v : ℕ) (s : State G)
      → G.edge_data dpid v s.graph ≢ none
      → member v (known_neighbors dpid s) ≡ true
  unfolding known_neighbors
  known_neighbors-member dpid v s h =
      rw (G.has_node-edge dpid v s.graph h) (G.neighbors-member dpid v s.graph h)

  edge_removed :
      (dpid port_no v : ℕ) (s : State G)
      → (if member v (known_neighbors dpid s) && has_src_port G (G.edge_data dpid v s.graph) port_no
          then none
          else G.edge_data dpid v s.graph)
        ≡ (if has_src_port G (G.edge_data dpid v s.graph) port_no
            then none
            else G.edge_data dpid v s.graph)
  edge_removed dpid port_no v s = elim (Option-cases (G.edge_data dpid v s.graph)) [
    | inl n ↦ rw n (ground arith)
    | inr (d, e) ↦
        let m : member v (known_neighbors dpid s) ≡ true =
          known_neighbors-member dpid v s (λ n. absurd (ground (arith, n, e))) in
        rw m refl
  ]

  same_edge_self : (a b : ℕ) → same_edge a b a b ≡ true
  same_edge_self a b = ground arith

  same_edge_swap : (a b : ℕ) → same_edge a b b a ≡ true
  same_edge_swap a b = ground arith

  p_ne_q : (p q : ℕ) → p ≢ q → nat_beq p q ≡ false
  p_ne_q p q n = ground arith

  port_down_both :
      (dpid port_no : ℕ) (reason : Reason) (s : State G)
      → s.locked ≡ false
      → let t = final (port_status_handler G dpid port_no reason false s) in
        ((v : ℕ)
          → G.edge_data dpid v t.graph ≡ (
              if has_src_port G (G.edge_data dpid v s.graph) port_no
              then none
              else G.edge_data dpid v s.graph))
        × ((u v : ℕ) → dpid ≢ u → dpid ≢ v → G.edge_data u v t.graph ≡ G.edge_data u v s.graph)
  unfolding after_failure set_port known_neighbors
  port_down_both dpid port_no reason s h =
      let s1 : State G =
        set_port G dpid port_no (record { is_up = false; reason = reason })
          (record s { locked = true }) in
      let ns = known_neighbors dpid s1 in
      rw (port_down_blocked G dpid port_no reason s h) (
        λ v. remove_links_edge dpid port_no v ns s1 ∙ edge_removed dpid port_no v s1,
        λ u v a b. remove_links_other dpid port_no u v ns s1 a b,
      )

  -- Whether a link between `u` and `v` is one of the switch, with the port as its `src_port`.
  abbrev pub is_failed : ℕ → ℕ → ℕ → ℕ → State G → Bool
  is_failed dpid port_no u v s =
      (nat_beq dpid u || nat_beq dpid v) && has_src_port G (G.edge_data u v s.graph) port_no

  -- With the lock free, a port that goes down removes from the graph exactly those links of its
  -- switch whose stored `src_port` is this port's number, whichever end of the link the switch is,
  -- and keeps every other link of the graph, with its data.
  pub port_down_links :
      (dpid port_no u v : ℕ) (reason : Reason) (s : State G)
      → s.locked ≡ false
      → G.edge_data u v (final (port_status_handler G dpid port_no reason false s)).graph
        ≡ (if is_failed dpid port_no u v s then none else G.edge_data u v s.graph)
  port_down_links dpid port_no u v reason s h =
      let t = final (port_status_handler G dpid port_no reason false s) in
      let both = port_down_both dpid port_no reason s h in
      elim (Bool-cases (nat_beq dpid u)) [
        | inl e ↦ rw (e, ← (nat_beq_iff dpid u).0 e) (both.0 v)
        | inr e ↦ elim (Bool-cases (nat_beq dpid v)) [
          | inl f ↦
              rw (e, f, ← (nat_beq_iff dpid v).0 f)
                (G.edge_data_comm u dpid t.graph
                  ∙ both.0 u
                  ∙ rw (G.edge_data_comm dpid u s.graph) refl)
          | inr f ↦
              rw (e, f)
                (both.1 u v (λ q. absurd (ground (arith, q, e, nat_beq_iff dpid u)))
                  (λ q. absurd (ground (arith, q, f, nat_beq_iff dpid v))))
        ]
      ]

  -- What `add_link` stores is up between both ends, in both directions.
  pub is_link_up-add_link :
      (a p b q w : ℕ) (s : State G)
      → s.locked ≡ false
      → let t = final (add_link G a p b q w s) in
        (is_link_up G a b t ≡ done true t) × (is_link_up G b a t ≡ done true t)
  unfolding add_link is_link_up
  is_link_up-add_link a p b q w s h =
      let link : LinkInfo = record { src_port = p; dst_port = q; weight = w } in
      rw h (
        rw (G.edge_data-add_edge a b a b link s.graph) (rw (same_edge_self a b) refl),
        rw (G.edge_data-add_edge a b b a link s.graph) (rw (same_edge_swap a b) refl),
      )

  -- With the lock free, a link that was added and whose far end goes down stays in the graph, if its
  -- two ports have different numbers: the handler compares the far port with the near one.
  pub far_port_down_kept :
      (a p b q w : ℕ) (reason : Reason) (s : State G)
      → s.locked ≡ false
      → p ≢ q
      → let t = final (port_status_handler G b q reason false (final (add_link G a p b q w s))) in
        G.edge_data a b t.graph ≡ some (record { src_port = p; dst_port = q; weight = w })
  unfolding add_link
  far_port_down_kept a p b q w reason s h n =
      let link : LinkInfo = record { src_port = p; dst_port = q; weight = w } in
      let s1 : State G = record s {
        graph = G.add_edge a b link s.graph;
        links = insert (a, b) link s.links;
        locked = false;
      } in
      let stored : G.edge_data b a s1.graph ≡ some link =
        G.edge_data-add_edge a b b a link s.graph ∙ rw (same_edge_swap a b) refl in
      rw h (
        G.edge_data_comm a b _
        ∙ (port_down_both b q reason s1 refl).0 a
        ∙ rw stored (rw (p_ne_q p q n) refl))
