-- ===== src/Healing/Removal.antt =====
-- tumba_sdn/controller/self_healing.py: what a failure takes out of the graph, and what a recovery restores.
use ai_driven_software_defin.Base.{
  ℕ, ◌≡◌, refl, Bool, true, false, Option, none, some, List, [], ◌∷◌, String, lookup, if◌then◌else◌,
  Bool-cases, inl, inr, arith, nat_eq, string_eq,
}
use ai_driven_software_defin.Graph.{GraphOps, same_edge}
use ai_driven_software_defin.Healing.Module.{
  write_state, EdgeInfo, State, dpid_to_name, default_graph, init, is_edge, first_link, failed_link,
  neighbors_of, fail_over, handle_link_failure, handle_link_recovery, port_status_handler,
}
use ai_driven_software_defin.Healing.Failover.{PortChange, handle_all, is_backup}

module _ (G : GraphOps String EdgeInfo) where
  write_state-keeps :
      (written : Bool) (s : State G)
      → ((write_state G written s).graph ≡ s.graph)
        × ((write_state G written s).failover_active ≡ s.failover_active)
  unfolding write_state
  write_state-keeps true s = (refl, refl)
  write_state-keeps false s = (refl, refl)

  first_link-edge :
      (sw n : String) (ns : List String) (g : G.Graph)
      → first_link G sw ns g ≡ some n
      → is_edge G (G.edge_data sw n g) ≡ true
  unfolding first_link
  first_link-edge sw n [] g e = absurd (cc)
  first_link-edge sw n (m ∷ ns) g e = elim (Bool-cases (is_edge G (G.edge_data sw m g))) [
    | inl here ↦ let q : m ≡ n = ground arith in rw (← q) here
    | inr other ↦ first_link-edge sw n ns g (ground arith)
  ]

  failed_link-known :
      (name : Option String) (sw n : String) (g : G.Graph)
      → name ≡ some sw
      → first_link G sw (neighbors_of G sw g) g ≡ some n
      → failed_link G name g ≡ some (sw, n)
  unfolding failed_link
  failed_link-known none sw n g known found = absurd (cc)
  failed_link-known (some sw') sw n g known found = let q : sw' ≡ sw = cc in rw (q, found) refl

  -- A failure at a known switch with a neighbour found removes one link, which was in the graph
  -- and joins this switch to this neighbour, and no other; the failover becomes active.
  pub failure_removes_one :
      (written : Bool) (start stop dpid port_no : ℕ) (sw n : String) (s : State G)
      → lookup dpid dpid_to_name ≡ some sw
      → first_link G sw (neighbors_of G sw s.graph) s.graph ≡ some n
      → let t = handle_link_failure G written start stop dpid port_no s in
        (is_edge G (G.edge_data sw n s.graph) ≡ true)
        × ((u v : String)
            → G.edge_data u v t.graph
              ≡ (if same_edge sw n u v then none else G.edge_data u v s.graph))
        × (t.failover_active ≡ true)
  unfolding handle_link_failure fail_over
  failure_removes_one written start stop dpid port_no sw n s known found = (
    first_link-edge sw n (neighbors_of G sw s.graph) s.graph found,
    rw (failed_link-known (lookup dpid dpid_to_name) sw n s.graph known found)
        (rw (write_state-keeps written _).0 (λ u v. G.edge_data-remove_edge sw n u v s.graph)),
    rw (failed_link-known (lookup dpid dpid_to_name) sw n s.graph known found)
        (write_state-keeps written _).1,
  )

  -- Two failures and one recovery: whatever failed and whichever port recovers, if either failure
  -- found a link, the graph is the default one, the failover is over and the primary path is in
  -- use, and the recovery of the other port then changes nothing.
  pub recovery_forgets :
      (c d r r' : PortChange G)
      → (handle_all G
          ((record c { is_up = false }) ∷ (record d { is_up = false }) ∷ [])
          (init G)).failover_active
        ≡ true
      → let t =
          handle_all G
            ((record c { is_up = false })
              ∷ (record d { is_up = false })
              ∷ (record r { is_up = true })
              ∷ [])
            (init G) in
        (t.graph ≡ default_graph G)
        × (t.failover_active ≡ false)
        × (is_backup G t.current_path ≡ false)
        × (handle_all G ((record r' { is_up = true }) ∷ []) t ≡ t)
  unfolding handle_all port_status_handler handle_link_recovery write_state
  recovery_forgets c d r r' active = elim (Bool-cases r.written) [
    | inl e ↦ rw (active, e) (refl, refl, refl, refl)
    | inr e ↦ rw (active, e) (refl, refl, refl, refl)
  ]
