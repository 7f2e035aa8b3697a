-- ===== src/Adaptive/Handlers/Packets.antt =====
-- examples/campus_controller.py: `packet_in_handler`, `state_change_handler` and
-- `switch_features_handler`, without a network automation file.
use ai_driven_software_defin.Base.{
  ℕ, ◌+◌, Bool, true, false, ◌&&◌, Option, none, some, List, [], ◌∷◌, ◌++◌, lookup, insert, has_key,
  or_else, first_some, add, discard, member, nat_beq, ◌==◌, nat_eq, string_eq, if◌then◌else◌,
}
use ai_driven_software_defin.OpenFlow.{
  Packet, Action, FlowMod, output, set_ipv4_dst, set_eth_dst, controller, flood, port, any_match,
  flow_mod, exact, eth_type_ip,
}
use ai_driven_software_defin.Adaptive.Tables.{
  vlan_automation_cookie, policy_cookie, primary_server_ip, backup_server_ip, backup_server_mac,
  zone_student_lab, it_dpid, net_dpid,
}
use ai_driven_software_defin.Adaptive.State.{
  CampusController, add_flow, delete_cookie_flows, append_event, packet_out, switch_connected,
}
use ai_driven_software_defin.Adaptive.Attacks.Floods.{track_ctrl_pkt_in}
use ai_driven_software_defin.Adaptive.Attacks.Scans.{check_port_scan}
use ai_driven_software_defin.Adaptive.Engine.Flows.{install_policy_engine_flows}
use ai_driven_software_defin.Adaptive.Security.Verdict.{enforce_security_policy}

abbrev pub eth_type_lldp : ℕ
eth_type_lldp = 0x88cc

unfoldable pub learn : ℕ → Packet → CampusController → CampusController
unfolding lookup has_key insert
learn dpid p s =
    let table = or_else (lookup dpid s.mac_to_port) [] in
    record s {
      mac_learn_count =
          (if has_key p.eth_src table then s.mac_learn_count else s.mac_learn_count + 1);
      mac_to_port = insert dpid (insert p.eth_src p.in_port table) s.mac_to_port;
    }

abbrev pub is_ip_packet : Packet → Bool
is_ip_packet p = nat_beq p.eth_type eth_type_ip

unfoldable pub scan_port : ℕ → ℕ → Packet → Option ℕ → CampusController → CampusController
unfolding check_port_scan
scan_port now dpid p none s = s
scan_port now dpid p (some dst_port) s = check_port_scan now p.ipv4_src dst_port dpid s

-- The pings of a lab to the primary server, at s2 while the reroute is active.
unfoldable pub is_fast_path : ℕ → Packet → CampusController → Bool
unfolding member
is_fast_path dpid p s =
    s.reroute_active
    && nat_beq dpid it_dpid
    && is_ip_packet p
    && nat_beq p.ip_proto 1
    && member p.ipv4_src zone_student_lab
    && p.ipv4_dst == primary_server_ip

abbrev pub fast_actions : List Action
fast_actions = set_ipv4_dst backup_server_ip ∷ set_eth_dst backup_server_mac ∷ output (port 1) ∷ []

abbrev pub fast_flow : Packet → FlowMod
fast_flow p =
    record (flow_mod 210
      (record any_match {
        in_port = some p.in_port;
        eth_type = some eth_type_ip;
        ip_proto = some 1;
        ipv4_src = some (exact p.ipv4_src);
        ipv4_dst = some (exact primary_server_ip);
      })
      fast_actions policy_cookie) { idle_timeout = 10 }

unfoldable pub send : ℕ → ℕ → Option ℕ → List Action → CampusController → CampusController
send dpid in_port buffer_id actions s = record s {
  sent = s.sent ++ ((dpid, packet_out in_port buffer_id actions) ∷ []);
}

abbrev pub to_host : Packet → Option ℕ → ℕ → FlowMod
to_host p buffer_id out_port =
    record (flow_mod 1 (record any_match { in_port = some p.in_port; eth_dst = some p.eth_dst })
      (output (port out_port) ∷ []) 0) { buffer_id = buffer_id }

-- The learning switch, with the port of the destination if it is known, and the packet's buffer.
unfoldable pub forward_to : ℕ → Packet → Option ℕ → Option ℕ → CampusController → CampusController
unfolding send add_flow
forward_to dpid p none buffer_id s = send dpid p.in_port buffer_id (output flood ∷ []) s
forward_to dpid p (some out_port) (some buffer) s =
    add_flow dpid (to_host p (some buffer) out_port) s
forward_to dpid p (some out_port) none s =
    send dpid p.in_port none (output (port out_port) ∷ [])
      (add_flow dpid (to_host p none out_port) s)

unfoldable pub forward : ℕ → Option ℕ → Packet → CampusController → CampusController
unfolding lookup is_fast_path add_flow send forward_to
forward dpid buffer_id p s =
    if is_fast_path dpid p s
    then send dpid p.in_port buffer_id fast_actions (
        add_flow dpid (fast_flow p)
          (record s { backup_path_packet_count = s.backup_path_packet_count + 1 }))
    else forward_to dpid p (lookup p.eth_dst (or_else (lookup dpid s.mac_to_port) [])) buffer_id s

abbrev pub unless_blocked : ℕ → Option ℕ → Packet → Bool × CampusController → CampusController
unless_blocked dpid buffer_id p (true, s) = s
unless_blocked dpid buffer_id p (false, s) = forward dpid buffer_id p s

-- What the packet is inspected for before the security policy: floods and port scans.
unfoldable pub inspect : ℕ → ℕ → Packet → CampusController → CampusController
unfolding learn track_ctrl_pkt_in scan_port
inspect now dpid p s =
    let s = track_ctrl_pkt_in now dpid p.in_port (learn dpid p s) in
    if is_ip_packet p then scan_port now dpid p (first_some p.tcp_dst p.udp_dst) s else s

-- A frame that is no Ethernet packet is none.
unfoldable pub packet_in_handler :
    ℕ → ℕ → Option ℕ → Option Packet → CampusController → CampusController
unfolding inspect enforce_security_policy forward
packet_in_handler now dpid buffer_id none s = record s { packet_in_count = s.packet_in_count + 1 }
packet_in_handler now dpid buffer_id (some p) s =
    let s = record s { packet_in_count = s.packet_in_count + 1 } in
    if nat_beq p.eth_type eth_type_lldp
    then s
    else unless_blocked dpid buffer_id p
        (enforce_security_policy now dpid buffer_id p (inspect now dpid p s))

-- The flag says that the new state is MAIN_DISPATCHER; another is DEAD_DISPATCHER.
unfoldable pub state_change_handler : ℕ → Bool → CampusController → CampusController
unfolding add discard
state_change_handler dpid true s = record s { datapaths = add dpid s.datapaths }
state_change_handler dpid false s = record s { datapaths = discard dpid s.datapaths }

abbrev pub to_backup : ℕ → FlowMod
to_backup out_port =
    flow_mod 50 (record any_match { eth_dst = some backup_server_mac })
      (output (port out_port) ∷ []) 0

-- The static path to the backup server.
unfoldable pub backup_path : ℕ → CampusController → CampusController
unfolding add_flow
backup_path dpid s =
    if nat_beq dpid 1
    then add_flow dpid (to_backup 2) s
    else if nat_beq dpid net_dpid
    then add_flow dpid (to_backup 4) s
    else s

-- Without a network automation file a switch has no VLANs: the rules of an earlier configuration are
-- deleted, and none are installed.
unfoldable pub install_vlan_automation_flows : ℕ → CampusController → CampusController
unfolding delete_cookie_flows
install_vlan_automation_flows dpid s = delete_cookie_flows dpid vlan_automation_cookie s

unfoldable pub switch_features_handler : ℕ → CampusController → CampusController
unfolding add_flow append_event backup_path install_policy_engine_flows
    install_vlan_automation_flows
switch_features_handler dpid s =
    let s = add_flow dpid (flow_mod 0 any_match (output controller ∷ []) 0) s in
    let s = install_policy_engine_flows dpid (backup_path dpid s) in
    append_event (switch_connected dpid) (install_vlan_automation_flows dpid s)
