-- ===== src/Adaptive/Start.antt =====
-- examples/campus_controller.py: the state that CampusController's `__init__` leaves, with no
-- settings in the environment.
use ai_driven_software_defin.Base.{pos, true, false, none, []}
use ai_driven_software_defin.Adaptive.Zones.{default_security_policy}
use ai_driven_software_defin.Adaptive.State.{CampusController, zero_fraction}

abbrev pub new_controller : CampusController
new_controller = record {
  datapaths = [];
  port_samples = [];
  port_samples_pkts = [];
  switch_port_stats = [];
  congested_ports = [];
  throughput_congested = false;
  reroute_active = false;
  last_core_primary_mbps = zero_fraction;
  last_core_wifi_mbps = zero_fraction;
  thresholds = record {
    congest_high_mbps = pos 150000;
    congest_low_mbps = pos 80000;
    port_congest_high_pct = pos 80000;
    port_congest_low_pct = pos 65000;
  };
  dqn_integration_enabled = true;
  dqn_pending_decision = false;
  dqn_last_trigger_ts = 0;
  last_ml_routing_choice = none;
  ml_action_mtime = 0;
  timetable_mode = "normal";
  timetable_state_mtime = 0;
  ddos_active = false;
  ddos_attacker_ips = [];
  ddos_blocked_flows = 0;
  ddos_port_pps = [];
  ddos_attack_type = none;
  ddos_detection_ts = 0;
  ctrl_flood_active = false;
  ctrl_flood_switches = [];
  ctrl_pkt_in_times = [];
  portscan_state = [];
  portscan_block_ips = [];
  recent_security_block_src = [];
  simulation_probe_ips = [];
  mac_to_port = [];
  mac_learn_count = 0;
  packet_in_count = 0;
  policy_engine_rules = [];
  backup_path_packet_count = 0;
  security_policy = default_security_policy;
  security_policy_mtime = 0;
  security_flows_attempted = 0;
  security_flows_blocked = 0;
  flow_mod_count = 0;
  sent = [];
  events = [];
}
