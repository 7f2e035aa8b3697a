-- ===== src/Adaptive/Security/Verdict.antt =====
-- examples/campus_controller.py: `_enforce_security_policy` and `_drop_security_flow`.
use ai_driven_software_defin.Base.{
  ℕ, ◌+◌, Bool, true, false, not, ◌&&◌, ◌||◌, Option, none, some, List, [], ◌∷◌, String, insert,
  member, nat_beq, ◌==◌, nat_eq, string_eq, if◌then◌else◌,
}
use ai_driven_software_defin.OpenFlow.{
  FlowMod, Match, Packet, any_match, flow_mod, exact, eth_type_ip,
}
use ai_driven_software_defin.Adaptive.Tables.{security_cookie}
use ai_driven_software_defin.Adaptive.Zones.{SecurityPolicy, ZonePair, ip_zone}
use ai_driven_software_defin.Adaptive.State.{
  CampusController, add_flow, append_event, security_violation_blocked,
}

pub data Verdict : Type 0 where
  allow : Verdict
  -- The match of the drop flow, and the reason.
  drop : Match → String → Verdict

-- `pair.get("reason") or "blocked_zone_pair"`.
abbrev pub reason_or : String → String → String
reason_or reason other = if reason == "" then other else reason

-- The first pair of the policy that the zones of a packet are.
unfoldable pub find_pair : String → String → List ZonePair → Option ZonePair
find_pair src_zone dst_zone [] = none
find_pair src_zone dst_zone (pair ∷ pairs) =
    let rest = find_pair src_zone dst_zone pairs in
    if src_zone == pair.src_zone && dst_zone == pair.dst_zone then some pair else rest

abbrev pub ip_match : Packet → Match
ip_match p = record any_match {
  in_port = some p.in_port;
  eth_type = some eth_type_ip;
  ipv4_src = some (exact p.ipv4_src);
  ipv4_dst = some (exact p.ipv4_dst);
}

unfoldable pub port_in : Option ℕ → List ℕ → Bool
unfolding member
port_in none ports = false
port_in (some port) ports = member port ports

-- The match of an unapproved access, by the protocol of the packet.
unfoldable pub access_match : Packet → Option ℕ → Option ℕ → Match
access_match p (some port) udp_dst = record (ip_match p) { ip_proto = some 6; tcp_dst = some port }
access_match p none (some port) = record (ip_match p) { ip_proto = some 17; udp_dst = some port }
access_match p none none = record (ip_match p) { ip_proto = some p.ip_proto }

-- Access from a restricted zone to a protected server that the policy does not allow.
unfoldable pub is_unapproved : SecurityPolicy → Packet → Bool
unfolding member port_in ip_zone
is_unapproved policy p =
    member (ip_zone p.ipv4_src) policy.restricted_source_zones
    && member p.ipv4_dst policy.protected_server_ips
    && not (nat_beq p.ip_proto 1 && policy.allow_icmp_to_servers)
    && not (port_in p.tcp_dst policy.allowed_server_tcp_ports)
    && not (port_in p.udp_dst policy.allowed_server_udp_ports)

abbrev pub pair_verdict : Option ZonePair → Packet → Verdict → Verdict
pair_verdict none p other = other
pair_verdict (some pair) p other = drop (ip_match p) (reason_or pair.reason "blocked_zone_pair")

unfoldable pub verdict : SecurityPolicy → Packet → Verdict
unfolding ip_zone find_pair is_unapproved access_match
verdict policy p =
    if not (nat_beq p.eth_type eth_type_ip) || not policy.enabled
    then allow
    else pair_verdict (find_pair (ip_zone p.ipv4_src) (ip_zone p.ipv4_dst) policy.block_zone_pairs)
        p
        (if is_unapproved policy p
          then drop (access_match p p.tcp_dst p.udp_dst) "unapproved_server_access"
          else allow)

abbrev pub security_drop : SecurityPolicy → Match → Option ℕ → FlowMod
security_drop policy m buffer_id = record (flow_mod policy.drop_priority m [] security_cookie) {
  idle_timeout = policy.drop_idle_timeout_s;
  hard_timeout = policy.drop_hard_timeout_s;
  buffer_id = buffer_id;
}

unfoldable pub drop_security_flow :
    ℕ → ℕ → Option ℕ → Packet → Match → String → CampusController → CampusController
unfolding insert add_flow append_event
drop_security_flow now dpid buffer_id p m reason s =
    let t = add_flow dpid (security_drop s.security_policy m buffer_id) s in
    append_event (security_violation_blocked p.ipv4_src reason) (record t {
      security_flows_blocked = s.security_flows_blocked + 1;
      recent_security_block_src = insert p.ipv4_src now s.recent_security_block_src;
    })

unfoldable pub apply_verdict :
    ℕ → ℕ → Option ℕ → Packet → Verdict → CampusController → Bool × CampusController
unfolding drop_security_flow
apply_verdict now dpid buffer_id p allow s = (false, s)
apply_verdict now dpid buffer_id p (drop m reason) s =
    (true, drop_security_flow now dpid buffer_id p m reason s)

unfoldable pub count_attempt : Packet → CampusController → CampusController
count_attempt p s =
    if nat_beq p.eth_type eth_type_ip && s.security_policy.enabled
    then record s { security_flows_attempted = s.security_flows_attempted + 1 }
    else s

-- Whether the packet is blocked, and the state.
unfoldable pub enforce_security_policy :
    ℕ → ℕ → Option ℕ → Packet → CampusController → Bool × CampusController
unfolding verdict apply_verdict count_attempt
enforce_security_policy now dpid buffer_id p s =
    apply_verdict now dpid buffer_id p (verdict s.security_policy p) (count_attempt p s)
