-- ===== src/Healing/Failover.antt =====
-- tumba_sdn/controller/self_healing.py: what holds of the state after every sequence of port changes.
use ai_driven_software_defin.Base.{
  ◌-◌, ◌⊎◌, ◌&&◌, round_div-le, round_div-ge, ℕ, ◌≤◌, ◌≡◌, refl, Bool, true, false, Option, none,
  some, List, [], ◌∷◌, String, lookup, length, All, All-append, ltb, Bool-cases, inl, inr, arith,
  nat_eq, string_eq,
}
use ai_driven_software_defin.Graph.{GraphOps}
use ai_driven_software_defin.Healing.Module.{
  rounded, write_state, failed_over, recovered, EdgeInfo, Route, primary_path, backup_path,
  FailoverEvent, HealingState, State, dpid_to_name, access_switches, init, failed_link,
  count_routes, fail_over, handle_link_failure, handle_link_recovery, port_status_handler,
  get_self_healing_state,
}

module _ (G : GraphOps String EdgeInfo) where
  abbrev pub is_backup : Route → Bool
  is_backup primary_path = false
  is_backup backup_path = true

  -- An event of a failover counts at most the four access switches; one that passes shows a time of
  -- at most 1000.00 ms, and one that does not at least this time.
  abbrev pub EventIsValid : FailoverEvent → Type 0
  EventIsValid e =
      (e.rerouted ≤ 4)
      × (((e.passed ≡ true) × (e.recovery_time_ms ≤ 100_000))
          ⊎ ((e.passed ≡ false) × (100_000 ≤ e.recovery_time_ms)))

  -- The path and the flag of what was written belong together.
  abbrev pub IsConsistent : HealingState → Type 0
  IsConsistent h = is_backup h.current_path ≡ h.failover_active

  -- What the state file says, if it has been written: it is consistent, and it agrees with the flag
  -- if no write has failed.
  abbrev pub FileAgrees : Bool → Option HealingState → Bool → Type 0
  FileAgrees true none active = active ≡ false
  FileAgrees true (some h) active = IsConsistent h × (h.failover_active ≡ active)
  FileAgrees false none active = Unit
  FileAgrees false (some h) active = IsConsistent h

  FileAgrees-failed :
      (ok : Bool) (file : Option HealingState) (old new : Bool)
      → FileAgrees ok file old
      → FileAgrees false file new
  FileAgrees-failed true none old new a = tt
  FileAgrees-failed true (some h) old new a = a.0
  FileAgrees-failed false none old new a = tt
  FileAgrees-failed false (some h) old new a = a

  FileAgrees-written :
      (ok : Bool) (h : HealingState) → IsConsistent h → FileAgrees ok (some h) h.failover_active
  FileAgrees-written true h c = (c, refl)
  FileAgrees-written false h c = c

  -- The flag says that no write has failed.
  pub record IsValid (ok : Bool) (s : State G) : Type 0 where
    pub path_agrees : is_backup s.current_path ≡ s.failover_active
    pub events_valid : All EventIsValid s.failover_events
    pub file_agrees : FileAgrees ok s.state_file s.failover_active

  count_routes-le : (sws : List String) (g : G.Graph) → count_routes G sws g ≤ length sws
  unfolding count_routes
  count_routes-le [] g = omega arith
  count_routes-le (sw ∷ sws) g = ground (arith, count_routes-le sws g)

  event-IsValid :
      (elapsed : ℕ)
      → ((ltb elapsed 1_000_000_000 ≡ true) × (rounded G elapsed ≤ 100_000))
        ⊎ ((ltb elapsed 1_000_000_000 ≡ false) × (100_000 ≤ rounded G elapsed))
  unfolding rounded
  event-IsValid elapsed = elim (Bool-cases (ltb elapsed 1_000_000_000)) [
    | inl e ↦ inl (e, round_div-le elapsed 100_000 (ground (arith, e)))
    | inr e ↦ inr (e, round_div-ge elapsed 100_000 (ground (arith, e)))
  ]

  -- A new state, with the file as it was before or as it is written.
  write-IsValid :
      (ok written : Bool) (old : Bool) (s : State G)
      → is_backup s.current_path ≡ s.failover_active
      → All EventIsValid s.failover_events
      → FileAgrees ok s.state_file old
      → IsValid (ok && written) (write_state G written s)
  unfolding write_state get_self_healing_state
  write-IsValid true true old s p e f = record {
    path_agrees = p;
    events_valid = e;
    file_agrees = (p, refl);
  }
  write-IsValid false true old s p e f = record {
    path_agrees = p;
    events_valid = e;
    file_agrees = p;
  }
  write-IsValid true false old s p e f = record {
    path_agrees = p;
    events_valid = e;
    file_agrees = FileAgrees-failed true s.state_file old s.failover_active f;
  }
  write-IsValid false false old s p e f = record {
    path_agrees = p;
    events_valid = e;
    file_agrees = FileAgrees-failed false s.state_file old s.failover_active f;
  }

  -- A state that is not written, whether the file could be written or not.
  kept-IsValid : (ok written : Bool) (s : State G) → IsValid ok s → IsValid (ok && written) s
  kept-IsValid true true s v = v
  kept-IsValid false written s v = v
  kept-IsValid true false s v = record {
    path_agrees = v.path_agrees;
    events_valid = v.events_valid;
    file_agrees =
        FileAgrees-failed true s.state_file s.failover_active s.failover_active v.file_agrees;
  }

  fail_over-IsValid :
      (ok written : Bool) (start stop dpid port_no : ℕ) (link : Option (String × String))
      (s : State G)
      → IsValid ok s
      → IsValid (ok && written) (fail_over G written start stop dpid port_no link s)
  unfolding fail_over
  fail_over-IsValid ok written start stop dpid port_no none s v = kept-IsValid ok written s v
  fail_over-IsValid ok written start stop dpid port_no (some (sw, n)) s v =
      let t = failed_over G (stop - start) dpid port_no sw n s in
      let counted = count_routes-le access_switches (G.remove_edge sw n s.graph) in
      let event : FailoverEvent = record {
        failed_link = (sw, n);
        dpid = dpid;
        port = port_no;
        recovery_time_ms = rounded G (stop - start);
        rerouted = count_routes G access_switches t.graph;
        passed = ltb (stop - start) 1_000_000_000;
      } in
      write-IsValid ok written s.failover_active t refl
        (All-append EventIsValid s.failover_events (event ∷ []) v.events_valid
          ((counted, event-IsValid (stop - start)), tt))
        v.file_agrees

  failure-IsValid :
      (ok written : Bool) (start stop dpid port_no : ℕ) (s : State G)
      → IsValid ok s
      → IsValid (ok && written) (handle_link_failure G written start stop dpid port_no s)
  unfolding handle_link_failure
  failure-IsValid ok written start stop dpid port_no s v =
      fail_over-IsValid ok written start stop dpid port_no
        (failed_link G (lookup dpid dpid_to_name) s.graph) (record s { failover_start_ts = start })
        (record {
          path_agrees = v.path_agrees;
          events_valid = v.events_valid;
          file_agrees = v.file_agrees;
        })

  recovery-IsValid :
      (ok written : Bool) (start stop dpid port_no : ℕ) (s : State G)
      → IsValid ok s
      → IsValid (ok && written) (handle_link_recovery G written start stop dpid port_no s)
  unfolding handle_link_recovery
  recovery-IsValid ok written start stop dpid port_no s v = elim (Bool-cases s.failover_active) [
    | inl e ↦ rw e (
        write-IsValid ok written s.failover_active (recovered G (stop - start) dpid port_no s) refl
          v.events_valid v.file_agrees)
    | inr e ↦ rw (e, ← e) (kept-IsValid ok written s v)
  ]

  -- A port change: whether the state file can be written, the clock readings, the switch, the port,
  -- and whether the port is up.
  pub record PortChange : Type 0 where
    pub written : Bool
    pub start : ℕ
    pub stop : ℕ
    pub dpid : ℕ
    pub port_no : ℕ
    pub is_up : Bool

  unfoldable pub handle_all : List PortChange → State G → State G
  handle_all [] s = s
  handle_all (c ∷ changes) s =
      handle_all changes (port_status_handler G c.written c.start c.stop c.dpid c.port_no c.is_up s)

  change-IsValid :
      (ok : Bool) (c : PortChange) (s : State G)
      → IsValid ok s
      → IsValid
          (ok && c.written)
          (port_status_handler G c.written c.start c.stop c.dpid c.port_no c.is_up s)
  unfolding port_status_handler
  change-IsValid ok c s v = elim (Bool-cases c.is_up) [
    | inl e ↦ rw e (recovery-IsValid ok c.written c.start c.stop c.dpid c.port_no s v)
    | inr e ↦ rw e (failure-IsValid ok c.written c.start c.stop c.dpid c.port_no s v)
  ]

  -- Whether the state file can be written at every change.
  abbrev pub all_written : Bool → List PortChange → Bool
  all_written ok [] = ok
  all_written ok (c ∷ changes) = all_written (ok && c.written) changes

  handle_all_from :
      (ok : Bool) (changes : List PortChange) (s : State G)
      → IsValid ok s
      → IsValid (all_written ok changes) (handle_all changes s)
  unfolding handle_all
  handle_all_from ok [] s v = v
  handle_all_from ok (c ∷ changes) s v =
      handle_all_from (ok && c.written) changes _ (change-IsValid ok c s v)

  -- After every sequence of port changes: the backup path is in use exactly while the failover is
  -- active; what the state file says of path and flag belongs together, and agrees with the state if
  -- the file could be written each time; no failover counts more than four rerouted switches; and a
  -- failover that passes shows a time of at most 1000.00 ms, one that does not at least this time.
  pub handle_all-IsValid :
      (changes : List PortChange) → IsValid (all_written true changes) (handle_all changes (init G))
  unfolding init
  handle_all-IsValid changes =
      handle_all_from true changes (init G)
        (record { path_agrees = refl; events_valid = tt; file_agrees = refl })
