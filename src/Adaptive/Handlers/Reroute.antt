-- ===== src/Adaptive/Handlers/Reroute.antt =====
-- examples/campus_controller.py: the whole controller while the agent is silent, and the reroute that
-- it does not end.
use ai_driven_software_defin.Base.{
  Outcome, returned, raised, Holds, then_do-Holds, pos, ℕ, Bool, true, false, not, ◌&&◌, Option,
  none, some, List, [], ◌∷◌, String, lookup, erase, or_else, is_empty, keys_where, ltb, leb, ◌==◌,
  nat_eq, string_eq, pair_eq, ◌≡◌, if◌then◌else◌, if-both,
}
use mathlib.Core.Path.{subst}
use ai_driven_software_defin.Adaptive.Zones.{
  SecurityPolicy, Payload, default_security_policy, normalize_security_policy,
}
use ai_driven_software_defin.Adaptive.State.{
  CampusController, append_event, security_policy_cleared, timetable_mode_change,
  ctrl_flood_expired, ddos_mitigation_expired, portscan_block_expired,
}
use ai_driven_software_defin.Adaptive.Routing.Decisions.{
  Files, apply_ml_action_hook, check_dqn_decision_timeout,
}
use ai_driven_software_defin.Adaptive.Routing.Override.{IsRerouted, apply_ml_action_hook-IsRerouted}
use ai_driven_software_defin.Adaptive.Routing.Silence.{IsSilent, check_dqn_decision_timeout-keep}
use ai_driven_software_defin.Adaptive.Attacks.Floods.{
  cleanup_ddos_state, cleanup_ctrl_flood, expire_floods, expire_attackers, is_old,
}
use ai_driven_software_defin.Adaptive.Attacks.Scans.{cleanup_portscan_state, expire_blocks}
use ai_driven_software_defin.Adaptive.Handlers.Stats.{
  PortStat, Inputs, set_policy, finish, monitor, read_stats, load_simulation_context_hook,
  port_stats_reply_handler, set_mode, apply_timetable_hook, set_payload, load_security_policy_hook,
  timetable_effects,
}
use ai_driven_software_defin.Adaptive.Handlers.Silent.{read_stats-keep}

set_mode-keep : (mode : String) (s : CampusController) → IsRerouted s → IsRerouted (set_mode mode s)
unfolding set_mode append_event
set_mode-keep mode s h =
    let effects : ℕ × ℕ = or_else (lookup mode timetable_effects) (40000, 20000) in
    let t : CampusController = record s { timetable_mode = mode } in
    if-both IsRerouted (mode == s.timetable_mode) t
      (append_event (timetable_mode_change s.timetable_mode mode) (record t {
        thresholds = record s.thresholds {
          congest_high_mbps = pos effects.0;
          congest_low_mbps = pos effects.1;
        };
      }))
      (λ e. h) (λ e. h)

apply_timetable_hook-keep :
    (file : Option (ℕ × Option String)) (s : CampusController)
    → IsRerouted s
    → IsRerouted (apply_timetable_hook file s)
unfolding apply_timetable_hook
apply_timetable_hook-keep none s h = h
apply_timetable_hook-keep (some (mtime, none)) s h =
    if-both IsRerouted (leb mtime s.timetable_state_mtime) s
      (record s { timetable_state_mtime = mtime }) (λ e. h) (λ e. h)
apply_timetable_hook-keep (some (mtime, some mode)) s h =
    let t : CampusController = record s { timetable_state_mtime = mtime } in
    if-both IsRerouted (leb mtime s.timetable_state_mtime) s (set_mode mode t) (λ e. h)
      (λ e. set_mode-keep mode t h)

expire_floods-keep_reroute :
    (expired : List ℕ) (s : CampusController) → IsRerouted s → IsRerouted (expire_floods expired s)
unfolding expire_floods append_event
expire_floods-keep_reroute [] s h = h
expire_floods-keep_reroute (dpid ∷ expired) s h =
    expire_floods-keep_reroute expired
      (append_event (ctrl_flood_expired dpid) (record s {
        ctrl_flood_switches = erase dpid s.ctrl_flood_switches;
        ctrl_pkt_in_times = erase dpid s.ctrl_pkt_in_times;
      }))
      h

expire_attackers-keep :
    (expired : List String) (s : CampusController)
    → IsRerouted s
    → IsRerouted (expire_attackers expired s)
unfolding expire_attackers append_event
expire_attackers-keep [] s h = h
expire_attackers-keep (ip ∷ expired) s h =
    expire_attackers-keep expired
      (append_event (ddos_mitigation_expired ip)
        (record s { ddos_attacker_ips = erase ip s.ddos_attacker_ips }))
      h

expire_blocks-keep_reroute :
    (expired : List String) (s : CampusController)
    → IsRerouted s
    → IsRerouted (expire_blocks expired s)
unfolding expire_blocks append_event
expire_blocks-keep_reroute [] s h = h
expire_blocks-keep_reroute (ip ∷ expired) s h =
    expire_blocks-keep_reroute expired
      (append_event (portscan_block_expired ip) (record s {
        portscan_block_ips = erase ip s.portscan_block_ips;
        portscan_state = erase ip s.portscan_state;
      }))
      h

cleanup_ddos_state-keep_reroute :
    (now : ℕ) (s : CampusController) → IsRerouted s → IsRerouted (cleanup_ddos_state now s)
unfolding cleanup_ddos_state
cleanup_ddos_state-keep_reroute now s h =
    let expired = keys_where (is_old now) s.ddos_attacker_ips in
    let t = expire_attackers expired s in
    let u : CampusController = record t { ddos_active = not (is_empty t.ddos_attacker_ips) } in
    let last = not u.ddos_active && not u.ctrl_flood_active in
    let kept = expire_attackers-keep expired s h in
    if-both IsRerouted (is_empty expired) s
      (if last then record u { ddos_attack_type = none } else u) (λ e. h)
      (λ e.
        if-both IsRerouted last (record u { ddos_attack_type = none }) u (λ f. kept) (λ f. kept))

cleanup_ctrl_flood-keep_reroute :
    (now : ℕ) (s : CampusController) → IsRerouted s → IsRerouted (cleanup_ctrl_flood now s)
unfolding cleanup_ctrl_flood
cleanup_ctrl_flood-keep_reroute now s h =
    let expired = keys_where (is_old now) s.ctrl_flood_switches in
    let t = expire_floods expired s in
    let u : CampusController = record t {
      ctrl_flood_active = not (is_empty t.ctrl_flood_switches);
    } in
    let last = not u.ctrl_flood_active && not u.ddos_active in
    let kept = expire_floods-keep_reroute expired s h in
    if-both IsRerouted (is_empty expired) s
      (if last then record u { ddos_attack_type = none } else u) (λ e. h)
      (λ e.
        if-both IsRerouted last (record u { ddos_attack_type = none }) u (λ f. kept) (λ f. kept))

set_policy-keep :
    (policy : Option SecurityPolicy) (s : CampusController)
    → IsRerouted s
    → Holds IsRerouted (set_policy policy s)
unfolding set_policy append_event
set_policy-keep none s h = h
set_policy-keep (some policy) s h = h

probes-keep :
    (probes : Option (List String)) (s : CampusController)
    → IsRerouted s
    → IsRerouted (load_simulation_context_hook probes s)
unfolding load_simulation_context_hook
probes-keep none s h = h
probes-keep (some ips) s h = h

finish-keep :
    (i : Inputs) (timeout now : ℕ) (s : CampusController)
    → IsRerouted s
    → IsRerouted (finish i timeout now s)
unfolding finish cleanup_portscan_state
finish-keep i timeout now s h =
    let d = load_simulation_context_hook i.probes s in
    let e = check_dqn_decision_timeout timeout now d in
    let f = cleanup_ddos_state now e in
    let g = cleanup_ctrl_flood now f in
    let timed = check_dqn_decision_timeout-keep timeout now d (probes-keep i.probes s h) in
    expire_blocks-keep_reroute (keys_where (λ until. ltb until now) g.portscan_block_ips) g
      (cleanup_ctrl_flood-keep_reroute now f (cleanup_ddos_state-keep_reroute now e timed))

module _ (is_ip : String → Bool) where
  set_payload-keep :
      (payload : Option (Option Payload)) (s : CampusController)
      → IsRerouted s
      → Holds IsRerouted (set_payload is_ip payload s)
  unfolding set_payload
  set_payload-keep none s h = h
  set_payload-keep (some payload) s h =
      set_policy-keep (normalize_security_policy is_ip payload) s h

  load_security_policy_hook-keep :
      (file : Option (ℕ × Option (Option Payload))) (s : CampusController)
      → IsRerouted s
      → Holds IsRerouted (load_security_policy_hook is_ip file s)
  unfolding load_security_policy_hook append_event
  load_security_policy_hook-keep none s h =
      if-both (Holds IsRerouted) s.security_policy.enabled
        (returned (
          append_event security_policy_cleared
            (record s { security_policy = default_security_policy; security_policy_mtime = 0 })))
        (returned s) (λ e. h) (λ e. h)
  load_security_policy_hook-keep (some (mtime, payload)) s h =
      let t : CampusController = record s { security_policy_mtime = mtime } in
      if-both (Holds IsRerouted) (leb mtime s.security_policy_mtime) (returned s)
        (set_payload is_ip payload t) (λ e. h) (λ e. set_payload-keep payload t h)

  monitor-keep :
      (i : Inputs) (timeout now : ℕ) (s : CampusController)
      → IsRerouted s
      → Holds IsRerouted (monitor is_ip i timeout now s)
  unfolding monitor
  monitor-keep i timeout now s h =
      then_do-Holds IsRerouted (apply_ml_action_hook i.files s) _
        (apply_ml_action_hook-IsRerouted i.files s h)
        (λ a k.
          then_do-Holds IsRerouted
            (load_security_policy_hook is_ip i.policy (apply_timetable_hook i.timetable a))
            (λ b. returned (finish i timeout now b))
            (load_security_policy_hook-keep i.policy (apply_timetable_hook i.timetable a)
              (apply_timetable_hook-keep i.timetable a k))
            (λ b l. finish-keep i timeout now b l))

  -- The state that a statistics reply leaves; an exception of the handler is logged by Ryu.
  abbrev pub after : Outcome CampusController → CampusController
  after (returned s) = s
  after (raised s) = s

  after-keep : (o : Outcome CampusController) → Holds IsRerouted o → IsRerouted (after o)
  after-keep (returned s) h = h
  after-keep (raised s) h = h

  -- Turns of `_monitor` with any files while it runs, which it does until a turn raises, and
  -- statistics replies while there is no action file. The flag says that `_monitor` runs.
  pub data Run (timeout : ℕ) : Bool → CampusController → CampusController → Type 0 where
    rest : (running : Bool) (s : CampusController) → Run timeout running s s
    turn :
        (i : Inputs) (now : ℕ) (s u t : CampusController)
        → monitor is_ip i timeout now s ≡ returned u
        → Run timeout true u t
        → Run timeout true s t
    last_turn :
        (i : Inputs) (now : ℕ) (s u t : CampusController)
        → monitor is_ip i timeout now s ≡ raised u
        → Run timeout false u t
        → Run timeout true s t
    reply :
        (running : Bool) (files : Files) (probes : Option (List String)) (now dpid : ℕ)
        (body : List PortStat) (s t : CampusController)
        → IsSilent files
        → Run timeout running (after (port_stats_reply_handler files probes now dpid body s)) t
        → Run timeout running s t

  -- With the agent's integration on and an active reroute, no sequence of turns of `_monitor`, with
  -- any files, and of statistics replies without an action file ends the reroute, however low the
  -- rates of the replies are.
  pub Run-reroute_active :
      (timeout : ℕ) (running : Bool) (s t : CampusController)
      → s.dqn_integration_enabled ≡ true
      → s.reroute_active ≡ true
      → Run timeout running s t
      → t.reroute_active ≡ true
  unfolding port_stats_reply_handler
  Run-reroute_active timeout running s t on active (rest _ _) = active
  Run-reroute_active timeout running s t on active (turn i now _ u _ e r) =
      let kept : Holds IsRerouted (returned u) =
        subst (Holds IsRerouted) e (monitor-keep i timeout now s (active, on)) in
      Run-reroute_active timeout true u t kept.1 kept.0 r
  Run-reroute_active timeout running s t on active (last_turn i now _ u _ e r) =
      let kept : Holds IsRerouted (raised u) =
        subst (Holds IsRerouted) e (monitor-keep i timeout now s (active, on)) in
      Run-reroute_active timeout false u t kept.1 kept.0 r
  Run-reroute_active timeout running s t on active
        (reply _ files probes now dpid body _ _ silent r) =
      let u = load_simulation_context_hook probes s in
      let read = read_stats files now dpid body u in
      let kept =
        after-keep read
          (read_stats-keep files now dpid body u silent (probes-keep probes s (active, on))) in
      Run-reroute_active timeout running (after read) t kept.1 kept.0 r
