-- ===== src/Security/Module/State.antt =====
-- tumba_sdn/controller/security_module.py: the state of SecurityModule and the rules it sends.
use ai_driven_software_defin.Base.{
  ℕ, ◌+◌, Bool, false, Option, none, some, List, [], ◌∷◌, ◌++◌, String, Dict, add, last_n,
  string_eq, nat_eq,
}
use ai_driven_software_defin.OpenFlow.{FlowMod, Match, any_match, flow_mod, exact, eth_type_ip}
use ai_driven_software_defin.Security.Zones.{security_cookie, portscan_drop_priority, ip_to_zone}

-- The entry of `portscan_state`; `ports` is a set, `ts_deque` has the oldest connection first.
pub record ScanState : Type 0 where
  pub ports : List ℕ
  pub ts_deque : List (ℕ × ℕ)
  pub alerted : Bool

pub record SecurityEvent : Type 0 where
  pub ts : ℕ
  pub event_type : String
  pub zone : String
  pub src_ip : String
  pub dst_ip : String
  pub attack_type : String
  pub action_taken : String

pub record SecurityModule : Type 0 where
  pub datapaths : List ℕ
  pub sent : List (ℕ × FlowMod)
  pub ddos_active : Bool
  pub ddos_blocked_ips : Dict String ℕ
  pub ddos_blocked_flows : ℕ
  pub ddos_attack_type : Option String
  pub ddos_detection_ts : ℕ
  pub portscan_state : Dict String ScanState
  pub portscan_blocked : Dict String ℕ
  pub security_events : List SecurityEvent
  pub security_flows_attempted : ℕ
  pub security_flows_blocked : ℕ
  pub ctrl_pkt_in_times : Dict ℕ (List ℕ)
  pub ctrl_pkt_in_rate : Dict ℕ ℕ

unfoldable pub init : SecurityModule
init = record {
  datapaths = [];
  sent = [];
  ddos_active = false;
  ddos_blocked_ips = [];
  ddos_blocked_flows = 0;
  ddos_attack_type = none;
  ddos_detection_ts = 0;
  portscan_state = [];
  portscan_blocked = [];
  security_events = [];
  security_flows_attempted = 0;
  security_flows_blocked = 0;
  ctrl_pkt_in_times = [];
  ctrl_pkt_in_rate = [];
}

unfoldable pub switch_features_handler : ℕ → SecurityModule → SecurityModule
switch_features_handler dpid s = record s { datapaths = add dpid s.datapaths }

-- `_log_security_event`: the last 500 events are kept.
unfoldable pub log_security_event : SecurityEvent → SecurityModule → SecurityModule
log_security_event event s = record s {
  security_events = last_n 500 (s.security_events ++ (event ∷ []));
}

-- The rule that `_install_drop` sends.
abbrev pub drop_rule : Match → ℕ → ℕ → ℕ → FlowMod
drop_rule match cookie priority hard_timeout = record (flow_mod priority match [] cookie) {
  hard_timeout = hard_timeout;
}

unfoldable pub install_drop : ℕ → Match → ℕ → ℕ → ℕ → SecurityModule → SecurityModule
install_drop dpid match cookie priority hard_timeout s = record s {
  sent = s.sent ++ ((dpid, drop_rule match cookie priority hard_timeout) ∷ []);
}

abbrev pub flow_match : ℕ → String → String → Match
flow_match in_port src_ip dst_ip = record any_match {
  in_port = some in_port;
  eth_type = some eth_type_ip;
  ipv4_src = some (exact src_ip);
  ipv4_dst = some (exact dst_ip);
}

-- `_block_flow`.
unfoldable pub block_flow :
    ℕ → ℕ → String → String → ℕ → String → String → ℕ → SecurityModule → SecurityModule
block_flow now dpid src_ip dst_ip in_port reason attack_type block_duration s =
    let s1 =
      install_drop dpid (flow_match in_port src_ip dst_ip) security_cookie portscan_drop_priority
        block_duration s in
    let s2 = record s1 { security_flows_blocked = s1.security_flows_blocked + 1 } in
    log_security_event
      (record {
        ts = now;
        event_type = reason;
        zone = ip_to_zone src_ip;
        src_ip = src_ip;
        dst_ip = dst_ip;
        attack_type = attack_type;
        action_taken = "drop_rule";
      })
      s2
