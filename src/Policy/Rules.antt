-- ===== src/Policy/Rules.antt =====
-- tumba_sdn/controller/policy_engine.py: the constants, the traffic profile, and the flow rule that
-- each part of the installation sends.
use Prim.Native.Char.{code}
use ai_driven_software_defin.Base.{
  ℕ, Bool, Option, none, some, List, [], ◌∷◌, String, Dict, lookup, nat_beq, ◌==◌, string_eq,
  if◌then◌else◌,
}
use ai_driven_software_defin.OpenFlow.{
  Match, FlowMod, Action, output, set_queue, masked, exact, normal, any_match, flow_mod,
  eth_type_ip, eth_type_arp,
}

-- ZONE_SUBNETS, in the order of the source.
abbrev pub zone_subnets : Dict String String
zone_subnets =
    ("staff_lan", "10.10.0.0/24")
    ∷ ("server_zone", "10.20.0.0/24")
    ∷ ("it_lab", "10.30.0.0/24")
    ∷ ("student_wifi", "10.40.0.0/24")
    ∷ []

abbrev pub mis_ip : String
mis_ip = "10.20.0.1"

abbrev pub policy_cookie : ℕ
policy_cookie = 0xcafe1001

abbrev pub zero_trust_cookie : ℕ
zero_trust_cookie = 0xcafe2001

abbrev pub mask_24 : String
mask_24 = "255.255.255.0"

-- `subnet.split('/')[0]`.
unfoldable pub network : String → String
network String.[] = String.[]
network (String.◌∷◌ c s) = if nat_beq (code c) b'/' then String.[] else String.◌∷◌ c (network s)

-- The entries of the traffic profile that the engine reads. An absent key is `none`.
pub record AllowedFlow : Type 0 where
  pub src : Option String
  pub dst : Option String
  pub ports : Option (List ℕ)
  pub proto : Option String

pub record BlockedFlow : Type 0 where
  pub src : Option String
  pub dst : Option String

pub record ZeroTrust : Type 0 where
  pub default_deny : Option Bool
  pub allowed_flows : Option (List AllowedFlow)
  pub blocked_flows : Option (List BlockedFlow)

pub record ZoneConfig : Type 0 where
  pub priority : Option ℕ

pub record TrafficProfile : Type 0 where
  pub zones : Option (Dict String ZoneConfig)
  pub zero_trust_rules : Option ZeroTrust

abbrev pub no_zero_trust : ZeroTrust
no_zero_trust = record { default_deny = none; allowed_flows = none; blocked_flows = none }

-- `ZONE_SUBNETS.get(zone)`, where the zone itself may be missing.
unfoldable pub zone_subnet : Option String → Option String
unfolding lookup
zone_subnet none = none
zone_subnet (some zone) = lookup zone zone_subnets

-- The match on IP traffic from one /24 network to another.
abbrev pub ip_pair : String → String → Match
ip_pair src_nw dst_nw = record any_match {
  eth_type = some eth_type_ip;
  ipv4_src = some (masked src_nw mask_24);
  ipv4_dst = some (masked dst_nw mask_24);
}

abbrev pub forward : List Action
forward = output normal ∷ []

-- Drop all traffic between two zones, at low priority.
abbrev pub deny_rule : String → String → FlowMod
deny_rule src_nw dst_nw = flow_mod 100 (ip_pair src_nw dst_nw) [] zero_trust_cookie

-- The match of an allowed flow: on the port, if the protocol is one that has ports.
unfoldable pub permit_match : String → String → String → ℕ → Match
permit_match proto src_nw dst_nw port =
    if proto == "tcp"
    then record (ip_pair src_nw dst_nw) { ip_proto = some 6; tcp_dst = some port }
    else if proto == "udp"
    then record (ip_pair src_nw dst_nw) { ip_proto = some 17; udp_dst = some port }
    else ip_pair src_nw dst_nw

abbrev pub permit_rule : String → String → String → ℕ → FlowMod
permit_rule proto src_nw dst_nw port =
    flow_mod 200 (permit_match proto src_nw dst_nw port) forward policy_cookie

-- A blocked pair of zones, above every permit.
abbrev pub block_rule : String → String → FlowMod
block_rule src_nw dst_nw = flow_mod 300 (ip_pair src_nw dst_nw) [] zero_trust_cookie

abbrev pub same_zone_rule : String → FlowMod
same_zone_rule nw = flow_mod 150 (ip_pair nw nw) forward policy_cookie

abbrev pub arp_rule : FlowMod
arp_rule = flow_mod 250 (record any_match { eth_type = some eth_type_arp }) forward policy_cookie

abbrev pub icmp_rule : FlowMod
icmp_rule =
    flow_mod 250 (record any_match { eth_type = some eth_type_ip; ip_proto = some 1 }) forward
      policy_cookie

-- Queue 0 for priority 1, queue 1 for priority 2, queue 2 for the rest.
unfoldable pub queue_id : ℕ → ℕ
queue_id priority = if nat_beq priority 1 then 0 else if nat_beq priority 2 then 1 else 2

abbrev pub qos_rule : String → ℕ → FlowMod
qos_rule nw queue =
    flow_mod 50
      (record any_match { eth_type = some eth_type_ip; ipv4_src = some (masked nw mask_24) })
      (set_queue queue ∷ output normal ∷ []) policy_cookie

-- Student Wi-Fi to the examination port of the MIS server, above the blocks.
abbrev pub exam_rule : FlowMod
exam_rule =
    record (flow_mod 350
      (record any_match {
        eth_type = some eth_type_ip;
        ipv4_src = some (masked "10.40.0.0" mask_24);
        ipv4_dst = some (exact mis_ip);
        ip_proto = some 6;
        tcp_dst = some 8443;
      })
      (set_queue 0 ∷ output normal ∷ []) policy_cookie) { hard_timeout = 3600 }
