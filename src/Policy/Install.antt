-- ===== src/Policy/Install.antt =====
-- tumba_sdn/controller/policy_engine.py: PolicyEngine's state and methods. An installation threads
-- the messages sent to the switch so far and the counter `rule_count`.
use ai_driven_software_defin.Base.{
  ℕ, ◌+◌, Bool, true, Option, none, some, List, [], ◌∷◌, ◌++◌, String, Dict, lookup, insert, add,
  keys, or_else, ◌==◌, string_eq, nat_eq, if◌then◌else◌,
}
use ai_driven_software_defin.OpenFlow.{FlowMod}
use ai_driven_software_defin.Policy.Rules.{
  AllowedFlow, BlockedFlow, ZeroTrust, ZoneConfig, TrafficProfile, no_zero_trust, zone_subnets,
  zone_subnet, network, queue_id, deny_rule, permit_rule, block_rule, same_zone_rule, arp_rule,
  icmp_rule, qos_rule, exam_rule,
}

pub record Installation : Type 0 where
  pub sent : List FlowMod
  pub rule_count : ℕ

-- `datapath.send_msg(message); rule_count += 1`.
unfoldable pub send : FlowMod → Installation → Installation
send message s = record s { sent = s.sent ++ (message ∷ []); rule_count = s.rule_count + 1 }

-- The loop over destination zones.
unfoldable pub deny_from : String → String → Dict String String → Installation → Installation
deny_from src_zone src_subnet [] s = s
deny_from src_zone src_subnet ((dst_zone, dst_subnet) ∷ zones) s =
    deny_from src_zone src_subnet zones (
      if src_zone == dst_zone
      then s
      else send (deny_rule (network src_subnet) (network dst_subnet)) s)

-- The loop over source zones.
unfoldable pub deny_all : Dict String String → Installation → Installation
deny_all [] s = s
deny_all ((src_zone, src_subnet) ∷ zones) s =
    deny_all zones (deny_from src_zone src_subnet zone_subnets s)

-- The loop over the ports of an allowed flow.
unfoldable pub permit_ports : String → String → String → List ℕ → Installation → Installation
permit_ports proto src_nw dst_nw [] s = s
permit_ports proto src_nw dst_nw (port ∷ ports) s =
    permit_ports proto src_nw dst_nw ports (send (permit_rule proto src_nw dst_nw port) s)

-- One allowed flow; a zone that is not known skips it.
unfoldable pub permit_flow :
    AllowedFlow → Option String → Option String → Installation → Installation
permit_flow flow (some src_subnet) (some dst_subnet) s =
    permit_ports (or_else flow.proto "tcp") (network src_subnet) (network dst_subnet)
      (or_else flow.ports []) s
permit_flow flow _ _ s = s

unfoldable pub permit_all : List AllowedFlow → Installation → Installation
permit_all [] s = s
permit_all (flow ∷ flows) s =
    permit_all flows (permit_flow flow (zone_subnet flow.src) (zone_subnet flow.dst) s)

unfoldable pub block_flow : Option String → Option String → Installation → Installation
block_flow (some src_subnet) (some dst_subnet) s =
    send (block_rule (network src_subnet) (network dst_subnet)) s
block_flow _ _ s = s

unfoldable pub block_all : List BlockedFlow → Installation → Installation
block_all [] s = s
block_all (blocked ∷ flows) s =
    block_all flows (block_flow (zone_subnet blocked.src) (zone_subnet blocked.dst) s)

unfoldable pub allow_same_zone : Dict String String → Installation → Installation
allow_same_zone [] s = s
allow_same_zone ((zone, subnet) ∷ zones) s =
    allow_same_zone zones (send (same_zone_rule (network subnet)) s)

-- `_install_zero_trust_rules`, up to the store of the counter.
unfoldable pub zero_trust_rules : ZeroTrust → Installation
zero_trust_rules config =
    let start : Installation = record { sent = []; rule_count = 0 } in
    let denied = if or_else config.default_deny true then deny_all zone_subnets start else start in
    let permitted = permit_all (or_else config.allowed_flows []) denied in
    let blocked = block_all (or_else config.blocked_flows []) permitted in
    send icmp_rule (send arp_rule (allow_same_zone zone_subnets blocked))

-- `_install_qos_rules`; these messages are not counted.
unfoldable pub qos_zone : ℕ → Option String → List FlowMod → List FlowMod
qos_zone queue (some subnet) sent = sent ++ (qos_rule (network subnet) queue ∷ [])
qos_zone queue none sent = sent

unfoldable pub qos_rules : Dict String ZoneConfig → List FlowMod → List FlowMod
qos_rules [] sent = sent
qos_rules ((zone, config) ∷ zones) sent =
    qos_rules zones (qos_zone (queue_id (or_else config.priority 3)) (zone_subnet (some zone)) sent)

pub data Event : Type 0 where
  policy_installed : ℕ → ℕ → Event
  exam_mode_changed : Bool → Event

-- `sent` holds the messages to each switch, in order.
pub record PolicyEngine : Type 0 where
  pub datapaths : List ℕ
  pub policy_rules : Dict ℕ ℕ
  pub config : TrafficProfile
  pub events : List Event
  pub spawned : List ℕ
  pub sent : Dict ℕ (List FlowMod)

unfoldable pub init : TrafficProfile → PolicyEngine
init config = record {
  datapaths = [];
  policy_rules = [];
  config = config;
  events = [];
  spawned = [];
  sent = [];
}

-- `_load_traffic_profile`: the file's content, or nothing if it cannot be read or parsed.
unfoldable pub load_traffic_profile : Option TrafficProfile → TrafficProfile
load_traffic_profile (some profile) = profile
load_traffic_profile none = record { zones = some []; zero_trust_rules = some no_zero_trust }

-- The messages that a switch has been sent so far.
unfoldable pub sent_to : PolicyEngine → ℕ → List FlowMod
sent_to e dpid = or_else (lookup dpid e.sent) []

unfoldable pub deliver : ℕ → List FlowMod → PolicyEngine → PolicyEngine
unfolding sent_to
deliver dpid messages e = record e { sent = insert dpid (sent_to e dpid ++ messages) e.sent }

unfoldable pub switch_features_handler : ℕ → PolicyEngine → PolicyEngine
switch_features_handler dpid e = record e {
  datapaths = add dpid e.datapaths;
  spawned = e.spawned ++ (dpid ∷ []);
}

unfoldable pub install_zero_trust_rules : ℕ → PolicyEngine → PolicyEngine
unfolding deliver
install_zero_trust_rules dpid e =
    let done = zero_trust_rules (or_else e.config.zero_trust_rules no_zero_trust) in
    let e' = deliver dpid done.sent e in
    record e' {
      policy_rules = insert dpid done.rule_count e'.policy_rules;
      events = e'.events ++ (policy_installed dpid done.rule_count ∷ []);
    }

unfoldable pub install_qos_rules : ℕ → PolicyEngine → PolicyEngine
unfolding deliver
install_qos_rules dpid e = deliver dpid (qos_rules (or_else e.config.zones []) []) e

unfoldable pub install_policies_delayed : ℕ → PolicyEngine → PolicyEngine
unfolding install_zero_trust_rules install_qos_rules
install_policies_delayed dpid e = install_qos_rules dpid (install_zero_trust_rules dpid e)

unfoldable pub update_exam_mode : ℕ → Bool → PolicyEngine → PolicyEngine
unfolding deliver
update_exam_mode dpid enable e =
    let e' = if enable then deliver dpid (exam_rule ∷ []) e else e in
    record e' { events = e'.events ++ (exam_mode_changed enable ∷ []) }

pub record PolicySummary : Type 0 where
  pub policy_rules : Dict ℕ ℕ
  pub zones : List String
  pub zero_trust_enabled : Bool

unfoldable pub get_policy_summary : PolicyEngine → PolicySummary
get_policy_summary e = record {
  policy_rules = e.policy_rules;
  zones = keys (or_else e.config.zones []);
  zero_trust_enabled = or_else (or_else e.config.zero_trust_rules no_zero_trust).default_deny true;
}
