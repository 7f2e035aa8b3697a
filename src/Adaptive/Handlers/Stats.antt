-- ===== src/Adaptive/Handlers/Stats.antt =====
-- examples/campus_controller.py: `port_stats_reply_handler`, `_apply_timetable_hook`,
-- `_load_security_policy_hook` and `_monitor`.
use ai_driven_software_defin.Base.{
  Outcome, returned, raised, then_do, pos, ℕ, ◌+◌, ◌*◌, ◌-◌, max, min, Bool, ◌&&◌, Option, none,
  some, List, [], ◌∷◌, String, Dict, lookup, insert, or_else, member, ltb, leb, nat_beq, ◌==◌,
  nat_eq, string_eq, pair_eq, if◌then◌else◌,
}
use ai_driven_software_defin.Adaptive.Tables.{port_capacity_mbps}
use ai_driven_software_defin.Adaptive.Zones.{
  SecurityPolicy, Payload, default_security_policy, normalize_security_policy,
}
use ai_driven_software_defin.Adaptive.State.{
  Port, Fraction, CampusController, append_event, timetable_mode_change, security_policy_cleared,
  security_policy_updated,
}
use ai_driven_software_defin.Adaptive.Routing.Policy.{update_port_congestion}
use ai_driven_software_defin.Adaptive.Routing.Decisions.{
  Files, apply_ml_action_hook, check_dqn_decision_timeout, evaluate_congestion,
}
use ai_driven_software_defin.Adaptive.Attacks.Floods.{
  second, check_port_ddos, cleanup_ddos_state, cleanup_ctrl_flood,
}
use ai_driven_software_defin.Adaptive.Attacks.Scans.{cleanup_portscan_state}

-- One port of a statistics reply.
pub record PortStat : Type 0 where
  pub port_no : ℕ
  pub rx_bytes : ℕ
  pub tx_bytes : ℕ
  pub rx_packets : ℕ

abbrev pub ofpp_local : ℕ
ofpp_local = 0xfffffffe

-- The fraction of packets by seconds, or of bits by microseconds, since the last sample. A time
-- below a microsecond is taken as one, and a count that went down as no change.
abbrev pub rate_since : ℕ → ℕ → ℕ → ℕ × ℕ → Fraction
rate_since factor now total prev = record {
  num = (total - prev.0) * factor;
  den = max 1 (now - prev.1);
}

-- `max(0.0, min(100.0, (mbps / cap) * 100.0))`, 0 for a port with no capacity.
unfoldable pub util_pct : Fraction → ℕ → Fraction
util_pct mbps cap =
    if ltb 0 cap
    then record { num = min (100 * (mbps.den * cap)) (100 * mbps.num); den = mbps.den * cap }
    else record { num = 0; den = 1 }

-- The packet rate of a port, from its second sample on.
unfoldable pub check_packets :
    ℕ → ℕ → PortStat → Option (ℕ × ℕ) → CampusController → CampusController
unfolding check_port_ddos
check_packets now dpid stat none s = s
check_packets now dpid stat (some prev) s =
    check_port_ddos now dpid stat.port_no (rate_since second now stat.rx_packets prev) s

abbrev pub is_core_port : ℕ → ℕ → ℕ → Bool
is_core_port number dpid port_no = nat_beq dpid 1 && nat_beq port_no number

unfoldable pub set_entry : Port → Fraction → Fraction → CampusController → CampusController
unfolding insert member
set_entry key mbps util s = record s {
  switch_port_stats =
      insert key (record { mbps = mbps; util_pct = util; congested = member key s.congested_ports })
        s.switch_port_stats;
}

unfoldable pub read_bytes :
    Files → ℕ → ℕ → PortStat → Option (ℕ × ℕ) → CampusController → Outcome CampusController
unfolding util_pct port_capacity_mbps update_port_congestion set_entry evaluate_congestion
read_bytes files now dpid stat none s = returned s
read_bytes files now dpid stat (some prev) s =
    let key : Port = (dpid, stat.port_no) in
    let mbps = rate_since 8 now (stat.rx_bytes + stat.tx_bytes) prev in
    let util = util_pct mbps (port_capacity_mbps dpid stat.port_no) in
    let s = set_entry key mbps util (update_port_congestion key util s) in
    if is_core_port 1 dpid stat.port_no
    then evaluate_congestion files now mbps (record s { last_core_primary_mbps = mbps })
    else if is_core_port 3 dpid stat.port_no
    then returned (record s { last_core_wifi_mbps = mbps })
    else returned s

unfoldable pub sample : ℕ → Port → PortStat → CampusController → CampusController
unfolding insert
sample now key stat s = record s {
  port_samples = insert key (stat.rx_bytes + stat.tx_bytes, now) s.port_samples;
  port_samples_pkts = insert key (stat.rx_packets, now) s.port_samples_pkts;
}

-- One port of the reply, with its last samples.
unfoldable pub read_stat : Files → ℕ → ℕ → PortStat → CampusController → Outcome CampusController
unfolding lookup sample check_packets read_bytes
read_stat files now dpid stat s =
    let key : Port = (dpid, stat.port_no) in
    read_bytes files now dpid stat (lookup key s.port_samples)
      (check_packets now dpid stat (lookup key s.port_samples_pkts) (sample now key stat s))

-- The local port is left out.
unfoldable pub read_port : Files → ℕ → ℕ → PortStat → CampusController → Outcome CampusController
unfolding read_stat
read_port files now dpid stat s =
    if nat_beq stat.port_no ofpp_local then returned s else read_stat files now dpid stat s

unfoldable pub read_stats :
    Files → ℕ → ℕ → List PortStat → CampusController → Outcome CampusController
unfolding read_port then_do
read_stats files now dpid [] s = returned s
read_stats files now dpid (stat ∷ body) s =
    then_do (read_port files now dpid stat s) (λ t. read_stats files now dpid body t)

-- The addresses of the simulation's probes, if its file has changed.
unfoldable pub load_simulation_context_hook :
    Option (List String) → CampusController → CampusController
load_simulation_context_hook none s = s
load_simulation_context_hook (some probe_ips) s = record s { simulation_probe_ips = probe_ips }

unfoldable pub port_stats_reply_handler :
    Files
    → Option (List String)
    → ℕ
    → ℕ
    → List PortStat
    → CampusController
    → Outcome CampusController
unfolding load_simulation_context_hook read_stats
port_stats_reply_handler files probes now dpid body s =
    read_stats files now dpid body (load_simulation_context_hook probes s)

-- `_TIMETABLE_EFFECTS`: the thresholds of a mode, in thousandths of a Mbps.
abbrev pub timetable_effects : Dict String (ℕ × ℕ)
timetable_effects =
    ("exam", (20000, 10000))
    ∷ ("lecture", (35000, 18000))
    ∷ ("lab", (50000, 25000))
    ∷ ("admin", (30000, 15000))
    ∷ ("break", (40000, 20000))
    ∷ ("after_hours", (60000, 30000))
    ∷ ("peak_hour", (25000, 12000))
    ∷ ("congestion", (15000, 8000))
    ∷ ("ddos", (20000, 10000))
    ∷ ("combined", (18000, 9000))
    ∷ ("normal", (40000, 20000))
    ∷ []

unfoldable pub set_mode : String → CampusController → CampusController
unfolding lookup append_event
set_mode mode s =
    let effects = or_else (lookup mode timetable_effects) (40000, 20000) in
    let t = record s { timetable_mode = mode } in
    if mode == s.timetable_mode
    then t
    else append_event (timetable_mode_change s.timetable_mode mode) (record t {
      thresholds = record s.thresholds {
        congest_high_mbps = pos effects.0;
        congest_low_mbps = pos effects.1;
      };
    })

-- A state file with its time of change, whose content may fail to be read.
unfoldable pub apply_timetable_hook :
    Option (ℕ × Option String) → CampusController → CampusController
unfolding set_mode
apply_timetable_hook none s = s
apply_timetable_hook (some (mtime, none)) s =
    if leb mtime s.timetable_state_mtime then s else record s { timetable_state_mtime = mtime }
apply_timetable_hook (some (mtime, some mode)) s =
    if leb mtime s.timetable_state_mtime
    then s
    else set_mode mode (record s { timetable_state_mtime = mtime })

-- What a turn of `_monitor` reads.
pub record Inputs : Type 0 where
  pub files : Files
  pub timetable : Option (ℕ × Option String)
  -- The policy file with its time of change, whose content may fail to be read, and may be no
  -- dictionary.
  pub policy : Option (ℕ × Option (Option Payload))
  pub probes : Option (List String)

unfoldable pub set_policy : Option SecurityPolicy → CampusController → Outcome CampusController
unfolding append_event
set_policy none s = raised s
set_policy (some policy) s =
    returned (append_event security_policy_updated (record s { security_policy = policy }))

module _ (is_ip : String → Bool) where
  unfoldable pub set_payload : Option (Option Payload) → CampusController → Outcome CampusController
  unfolding normalize_security_policy set_policy
  set_payload none s = returned s
  set_payload (some payload) s = set_policy (normalize_security_policy is_ip payload) s

  -- The policy file, if there is one, as for the timetable.
  unfoldable pub load_security_policy_hook :
      Option (ℕ × Option (Option Payload)) → CampusController → Outcome CampusController
  unfolding append_event set_payload
  load_security_policy_hook none s =
      if s.security_policy.enabled
      then returned (
          append_event security_policy_cleared
            (record s { security_policy = default_security_policy; security_policy_mtime = 0 }))
      else returned s
  load_security_policy_hook (some (mtime, payload)) s =
      if leb mtime s.security_policy_mtime
      then returned s
      else set_payload payload (record s { security_policy_mtime = mtime })

-- What follows the policy hook in a turn of `_monitor`, up to the requests for statistics.
unfoldable pub finish : Inputs → ℕ → ℕ → CampusController → CampusController
unfolding load_simulation_context_hook check_dqn_decision_timeout cleanup_ddos_state
    cleanup_ctrl_flood cleanup_portscan_state
finish i timeout now s =
    let s = check_dqn_decision_timeout timeout now (load_simulation_context_hook i.probes s) in
    cleanup_portscan_state now (cleanup_ctrl_flood now (cleanup_ddos_state now s))

module _ (is_ip : String → Bool) where
  -- One turn of `_monitor`. A turn in which a hook raises ends there, and `_monitor` with it.
  unfoldable pub monitor : Inputs → ℕ → ℕ → CampusController → Outcome CampusController
  unfolding apply_ml_action_hook apply_timetable_hook load_security_policy_hook finish then_do
  monitor i timeout now s = then_do (apply_ml_action_hook i.files s) (λ s.
      then_do (load_security_policy_hook is_ip i.policy (apply_timetable_hook i.timetable s))
        (λ s. returned (finish i timeout now s)))
