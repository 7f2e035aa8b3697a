-- ===== src/Adaptive/State.antt =====
-- examples/campus_controller.py: CampusController's state, and `add_flow`.
use ai_driven_software_defin.Base.{
  ℕ, ◌+◌, ◌*◌, ℤ, pos, negsuc, true, false, Bool, Option, List, [], ◌∷◌, ◌++◌, String, Dict, leb,
  nat_eq,
}
use ai_driven_software_defin.OpenFlow.{Action, FlowMod}
use ai_driven_software_defin.Adaptive.Zones.{SecurityPolicy}

abbrev pub Port : Type 0
Port = ℕ × ℕ

-- A number that is not negative, as a fraction. A rate in Mbps is bits by microseconds.
pub record Fraction : Type 0 where
  pub num : ℕ
  pub den : ℕ

abbrev pub zero_fraction : Fraction
zero_fraction = record { num = 0; den = 1 }

-- `f >= t` and `f <= t`, for a threshold in thousandths.
unfoldable pub at_least : Fraction → ℤ → Bool
at_least f (pos t) = leb (t * f.den) (1000 * f.num)
at_least f (negsuc t) = true

unfoldable pub at_most : Fraction → ℤ → Bool
at_most f (pos t) = leb (1000 * f.num) (t * f.den)
at_most f (negsuc t) = false

-- In thousandths of a Mbps and of a percent. A settings file may set a threshold below 0.
pub record Thresholds : Type 0 where
  pub congest_high_mbps : ℤ
  pub congest_low_mbps : ℤ
  pub port_congest_high_pct : ℤ
  pub port_congest_low_pct : ℤ

pub data Message : Type 0 where
  flow : FlowMod → Message
  delete_cookie : ℕ → Message
  -- The packet's port, the switch's buffer, and what is done with the packet.
  packet_out : ℕ → Option ℕ → List Action → Message

pub data Event : Type 0 where
  port_congestion_on port_congestion_off : Port → Event
  throughput_congestion_on throughput_congestion_off : Event
  policy_activated policy_deactivated : Event
  dqn_decision_requested : Event
  -- The decision, and whether it is the safety override's.
  dqn_decision_applied : Bool → Bool → Event
  dqn_decision_timeout : Event
  ddos_detected ddos_mitigation_expired : String → Event
  ctrl_flood_detected : ℕ → ℕ → Event
  ctrl_flood_expired : ℕ → Event
  portscan_detected : String → ℕ → Event
  portscan_block_expired : String → Event
  threshold_update : Event
  ml_routing_choice : String → Event
  ml_force_reroute : Bool → Event
  timetable_mode_change : String → String → Event
  security_violation_blocked : String → String → Event
  switch_connected : ℕ → Event
  -- The switch, the number of rules and the uplink.
  policy_engine_programmed : ℕ → ℕ → ℕ → Event
  security_policy_cleared security_policy_updated : Event

pub data AttackType : Type 0 where
  data_plane ctrl_plane : AttackType

-- One entry of `portscan_state`.
pub record ScanEntry : Type 0 where
  pub ports : List ℕ
  pub ts_deque : List ℕ
  pub alerted : Bool

pub record PortEntry : Type 0 where
  pub mbps : Fraction
  pub util_pct : Fraction
  pub congested : Bool

pub record CampusController : Type 0 where
  pub datapaths : List ℕ
  -- (total bytes, time) and (received packets, time) of the last reply.
  pub port_samples : Dict Port (ℕ × ℕ)
  pub port_samples_pkts : Dict Port (ℕ × ℕ)
  pub switch_port_stats : Dict Port PortEntry
  pub congested_ports : List Port
  pub throughput_congested : Bool
  pub reroute_active : Bool
  pub last_core_primary_mbps : Fraction
  pub last_core_wifi_mbps : Fraction
  pub thresholds : Thresholds
  pub dqn_integration_enabled : Bool
  pub dqn_pending_decision : Bool
  pub dqn_last_trigger_ts : ℕ
  pub last_ml_routing_choice : Option String
  pub ml_action_mtime : ℕ
  pub timetable_mode : String
  pub timetable_state_mtime : ℕ
  pub ddos_active : Bool
  pub ddos_attacker_ips : Dict String ℕ
  pub ddos_blocked_flows : ℕ
  pub ddos_port_pps : Dict Port Fraction
  pub ddos_attack_type : Option AttackType
  pub ddos_detection_ts : ℕ
  pub ctrl_flood_active : Bool
  pub ctrl_flood_switches : Dict ℕ ℕ
  pub ctrl_pkt_in_times : Dict ℕ (List ℕ)
  pub portscan_state : Dict String ScanEntry
  pub portscan_block_ips : Dict String ℕ
  pub recent_security_block_src : Dict String ℕ
  pub simulation_probe_ips : List String
  pub mac_to_port : Dict ℕ (Dict String ℕ)
  pub mac_learn_count : ℕ
  pub packet_in_count : ℕ
  pub policy_engine_rules : Dict ℕ ℕ
  pub backup_path_packet_count : ℕ
  pub security_policy : SecurityPolicy
  pub security_policy_mtime : ℕ
  pub security_flows_attempted : ℕ
  pub security_flows_blocked : ℕ
  pub flow_mod_count : ℕ
  -- What the switches got, the last message last, each with the switch's dpid.
  pub sent : List (ℕ × Message)
  pub events : List Event

-- The flow of `add_flow`, with the arguments that a call leaves out at 0 or None.
unfoldable pub add_flow : ℕ → FlowMod → CampusController → CampusController
add_flow dpid r s = record s {
  flow_mod_count = s.flow_mod_count + 1;
  sent = s.sent ++ ((dpid, flow r) ∷ []);
}

unfoldable pub delete_cookie_flows : ℕ → ℕ → CampusController → CampusController
delete_cookie_flows dpid cookie s = record s {
  sent = s.sent ++ ((dpid, delete_cookie cookie) ∷ []);
}

unfoldable pub append_event : Event → CampusController → CampusController
append_event e s = record s { events = s.events ++ (e ∷ []) }
