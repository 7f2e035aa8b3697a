-- ===== src/Security/Module/Inspection.antt =====
-- tumba_sdn/controller/security_module.py: the packets that reach the controller, and `check_ddos`.
use ai_driven_software_defin.Base.{
  ℕ, ◌+◌, true, ◌||◌, Option, none, some, List, [], ◌∷◌, String, insert, has_key, member, leb,
  if◌then◌else◌, string_eq, nat_eq,
}
use ai_driven_software_defin.OpenFlow.{Match, any_match, exact, eth_type_ip}
use ai_driven_software_defin.Security.Zones.{
  ddos_cookie, ddos_pps_threshold, ddos_mbps_threshold, ddos_drop_priority, ddos_block_duration_s,
  ip_to_zone, host_ip_for_port, is_blocked_access,
}
use ai_driven_software_defin.Security.Module.State.{
  SecurityModule, log_security_event, install_drop, block_flow,
}
use ai_driven_software_defin.Security.Module.Detection.{track_ctrl_flood, check_port_scan}

-- What Ryu's parser finds in a packet-in message.
pub data Frame : Type 0 where
  unparsed : Frame
  not_ipv4 : Frame
  ipv4 : String → String → Option ℕ → Frame

pub record PacketIn : Type 0 where
  pub dpid : ℕ
  pub in_port : ℕ
  pub frame : Frame

-- The port-scan check of a packet that carries TCP.
unfoldable pub check_tcp : ℕ → ℕ → String → String → Option ℕ → ℕ → SecurityModule → SecurityModule
check_tcp now dpid src_ip dst_ip none in_port s = s
check_tcp now dpid src_ip dst_ip (some dst_port) in_port s =
    check_port_scan now dpid src_ip dst_ip dst_port in_port s

-- `packet_in_handler` after the flood tracking.
unfoldable pub inspect : ℕ → ℕ → ℕ → Frame → SecurityModule → SecurityModule
unfolding check_tcp
inspect now dpid in_port unparsed s = s
inspect now dpid in_port not_ipv4 s = s
inspect now dpid in_port (ipv4 src_ip dst_ip tcp_port) s =
    let s1 = record s { security_flows_attempted = s.security_flows_attempted + 1 } in
    let s2 = check_tcp now dpid src_ip dst_ip tcp_port in_port s1 in
    if is_blocked_access (ip_to_zone src_ip) (ip_to_zone dst_ip)
    then block_flow now dpid src_ip dst_ip in_port "unauthorized_cross_zone" "zero_trust_violation"
        300 s2
    else s2

unfoldable pub packet_in_handler : ℕ → PacketIn → SecurityModule → SecurityModule
packet_in_handler now ev s =
    inspect now ev.dpid ev.in_port ev.frame (track_ctrl_flood now ev.dpid ev.in_port s)

abbrev pub source_match : String → Match
source_match src_ip = record any_match {
  eth_type = some eth_type_ip;
  ipv4_src = some (exact src_ip);
}

-- The loop of `_block_ddos` over the switches.
unfoldable pub drop_on_all : List ℕ → String → SecurityModule → SecurityModule
drop_on_all [] src_ip s = s
drop_on_all (dpid ∷ dpids) src_ip s =
    drop_on_all dpids src_ip (
      install_drop dpid (source_match src_ip) ddos_cookie ddos_drop_priority ddos_block_duration_s
        s)

-- `_block_ddos`.
unfoldable pub block_ddos : ℕ → String → SecurityModule → SecurityModule
block_ddos now src_ip s =
    let s1 = drop_on_all s.datapaths src_ip s in
    let s2 = record s1 {
      ddos_blocked_ips = insert src_ip now s1.ddos_blocked_ips;
      ddos_blocked_flows = s1.ddos_blocked_flows + 1;
      ddos_active = true;
      ddos_attack_type = some "data_plane";
      ddos_detection_ts = now;
    } in
    log_security_event
      (record {
        ts = now;
        event_type = "ddos_detected";
        zone = ip_to_zone src_ip;
        src_ip = src_ip;
        dst_ip = "";
        attack_type = "ddos_flood";
        action_taken = "drop_rule_all_switches";
      })
      s2

-- `check_ddos` for the host behind the port, if it is known.
unfoldable pub check_host : ℕ → ℕ → Option String → SecurityModule → SecurityModule
check_host now dpid none s = s
check_host now dpid (some src_ip) s =
    if has_key src_ip s.ddos_blocked_ips
    then s
    else if member dpid s.datapaths
    then block_ddos now src_ip s
    else s

unfoldable pub check_ddos : ℕ → ℕ → ℕ → ℕ → ℕ → SecurityModule → SecurityModule
unfolding check_host
check_ddos now dpid port_no pps mbps s =
    if leb ddos_pps_threshold pps || leb ddos_mbps_threshold mbps
    then check_host now dpid (host_ip_for_port dpid port_no) s
    else s
