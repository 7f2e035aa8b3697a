-- ===== src/Adaptive/Attacks/Floods.antt =====
-- examples/campus_controller.py: `_track_ctrl_pkt_in` to `_cleanup_ddos_state`. Times are in
-- microseconds.
use ai_driven_software_defin.Base.{
  ℕ, ◌+◌, ◌*◌, ◌-◌, Bool, true, not, ◌&&◌, ◌||◌, Option, none, some, List, [], ◌∷◌, ◌++◌, String,
  Dict, lookup, insert, erase, has_key, or_else, first_some, member, is_empty, length, keys_where,
  ltb, leb, nat_beq, nat_eq, string_eq, pair_eq, if◌then◌else◌,
}
use ai_driven_software_defin.OpenFlow.{FlowMod, Match, any_match, flow_mod, exact, eth_type_ip}
use ai_driven_software_defin.Adaptive.State.{
  Fraction, AttackType, data_plane, ctrl_plane, CampusController, add_flow, append_event,
  ctrl_flood_detected, ctrl_flood_expired, ddos_detected, ddos_mitigation_expired,
}
use ai_driven_software_defin.Adaptive.Tables.{
  ddos_cookie, it_client_ports, net_client_ports, staff_client_ports, wifi_client_ports,
}

abbrev pub second : ℕ
second = 1000000

abbrev pub ctrl_flood_window : ℕ
ctrl_flood_window = 500000

-- Packets in a second.
abbrev pub ctrl_flood_threshold : ℕ
ctrl_flood_threshold = 150

abbrev pub ddos_pps_threshold : ℕ
ddos_pps_threshold = 500

-- A drop flow of so many seconds.
abbrev pub drop_flow : ℕ → Match → ℕ → FlowMod
drop_flow priority m hard = record (flow_mod priority m [] ddos_cookie) { hard_timeout = hard }

unfoldable pub mitigate_ctrl_flood : ℕ → ℕ → ℕ → CampusController → CampusController
unfolding has_key insert add_flow append_event
mitigate_ctrl_flood now dpid in_port s =
    if has_key dpid s.ctrl_flood_switches
    then s
    else append_event (ctrl_flood_detected dpid in_port) (
        add_flow dpid (drop_flow 401 (record any_match { in_port = some in_port }) 30) (record s {
          ctrl_flood_switches = insert dpid now s.ctrl_flood_switches;
          ctrl_flood_active = true;
          ddos_active = true;
          ddos_attack_type = some ctrl_plane;
          ddos_detection_ts = now;
          ddos_blocked_flows = s.ddos_blocked_flows + 1;
        }))

-- `while times and times[0] < cutoff: times.popleft()`.
unfoldable pub drop_before : ℕ → List ℕ → List ℕ
drop_before cutoff [] = []
drop_before cutoff (t ∷ times) =
    let rest = drop_before cutoff times in if ltb t cutoff then rest else t ∷ times

unfoldable pub track_ctrl_pkt_in : ℕ → ℕ → ℕ → CampusController → CampusController
unfolding lookup insert drop_before has_key mitigate_ctrl_flood
track_ctrl_pkt_in now dpid in_port s =
    let times =
      drop_before (now - ctrl_flood_window)
        (or_else (lookup dpid s.ctrl_pkt_in_times) [] ++ (now ∷ [])) in
    let s = record s { ctrl_pkt_in_times = insert dpid times s.ctrl_pkt_in_times } in
    if leb (ctrl_flood_threshold * ctrl_flood_window) (length times * second)
      && not (has_key dpid s.ctrl_flood_switches)
    then mitigate_ctrl_flood now dpid in_port s
    else s

unfoldable pub expire_floods : List ℕ → CampusController → CampusController
unfolding erase append_event
expire_floods [] s = s
expire_floods (dpid ∷ expired) s = expire_floods expired (
    append_event (ctrl_flood_expired dpid) (record s {
      ctrl_flood_switches = erase dpid s.ctrl_flood_switches;
      ctrl_pkt_in_times = erase dpid s.ctrl_pkt_in_times;
    }))

-- The entries that are as old as the hard timeout and two seconds.
abbrev pub is_old : ℕ → ℕ → Bool
is_old now ts = leb (32 * second) (now - ts)

unfoldable pub cleanup_ctrl_flood : ℕ → CampusController → CampusController
unfolding keys_where expire_floods
cleanup_ctrl_flood now s =
    let expired = keys_where (is_old now) s.ctrl_flood_switches in
    if is_empty expired
    then s
    else (let s = expire_floods expired s in
        let s = record s { ctrl_flood_active = not (is_empty s.ctrl_flood_switches) } in
        if not s.ctrl_flood_active && not s.ddos_active
        then record s { ddos_attack_type = none }
        else s)

-- `if dpid == sw_dpid: for ip, p in port_map.items(): if p == port_no: return ip`.
unfoldable pub first_with_port : ℕ → Dict String ℕ → Option String
first_with_port port_no [] = none
first_with_port port_no ((ip, p) ∷ port_map) =
    let rest = first_with_port port_no port_map in if nat_beq p port_no then some ip else rest

abbrev pub port_maps : Dict ℕ (Dict String ℕ)
port_maps =
    (4, it_client_ports)
    ∷ (5, it_client_ports)
    ∷ (6, it_client_ports)
    ∷ (9, it_client_ports)
    ∷ (10, it_client_ports)
    ∷ (7, net_client_ports)
    ∷ (8, net_client_ports)
    ∷ (11, net_client_ports)
    ∷ (14, staff_client_ports)
    ∷ (13, wifi_client_ports)
    ∷ (12, wifi_client_ports)
    ∷ []

unfoldable pub search_maps : ℕ → ℕ → Dict ℕ (Dict String ℕ) → Option String
unfolding first_with_port
search_maps dpid port_no [] = none
search_maps dpid port_no ((sw_dpid, port_map) ∷ maps) =
    let rest = search_maps dpid port_no maps in
    if nat_beq dpid sw_dpid then first_some (first_with_port port_no port_map) rest else rest

unfoldable pub host_ip_for_port : ℕ → ℕ → Option String
unfolding search_maps
host_ip_for_port dpid port_no = search_maps dpid port_no port_maps

abbrev pub type_or : Option AttackType → AttackType → AttackType
type_or none other = other
type_or (some t) other = t

unfoldable pub install_ddos_drop : ℕ → ℕ → String → CampusController → CampusController
unfolding has_key insert add_flow append_event
install_ddos_drop now dpid src_ip s =
    if has_key src_ip s.ddos_attacker_ips
    then s
    else (let t =
          add_flow dpid
            (drop_flow 400
              (record any_match { eth_type = some eth_type_ip; ipv4_src = some (exact src_ip) }) 30)
            s in
        append_event (ddos_detected src_ip) (record t {
          ddos_attacker_ips = insert src_ip now s.ddos_attacker_ips;
          ddos_blocked_flows = s.ddos_blocked_flows + 1;
          ddos_active = true;
          ddos_detection_ts = now;
          ddos_attack_type = some (type_or s.ddos_attack_type data_plane);
        }))

-- The loop of `_check_port_ddos` over the switches.
unfoldable pub install_on_all : ℕ → List ℕ → String → CampusController → CampusController
unfolding install_ddos_drop
install_on_all now [] src_ip s = s
install_on_all now (dpid ∷ dpids) src_ip s =
    install_on_all now dpids src_ip (install_ddos_drop now dpid src_ip s)

-- The end of `_check_port_ddos`, for an address that was blocked at that time by the security
-- policy (0 if it was not).
unfoldable pub unless_blocked : ℕ → ℕ → String → CampusController → CampusController
unfolding erase install_on_all
unless_blocked now blocked_ts src_ip s =
    if nat_beq blocked_ts 0
    then install_on_all now s.datapaths src_ip s
    else if ltb (now - blocked_ts) (300 * second)
    then s
    else install_on_all now s.datapaths src_ip
        (record s { recent_security_block_src = erase src_ip s.recent_security_block_src })

unfoldable pub check_source : ℕ → Option String → CampusController → CampusController
unfolding has_key member lookup unless_blocked
check_source now none s = s
check_source now (some src_ip) s =
    if has_key src_ip s.ddos_attacker_ips || member src_ip s.simulation_probe_ips
    then s
    else unless_blocked now (or_else (lookup src_ip s.recent_security_block_src) 0) src_ip s

-- The rate is a fraction of packets by seconds.
unfoldable pub check_port_ddos : ℕ → ℕ → ℕ → Fraction → CampusController → CampusController
unfolding insert check_source host_ip_for_port
check_port_ddos now dpid port_no pps s =
    let s = record s { ddos_port_pps = insert (dpid, port_no) pps s.ddos_port_pps } in
    if ltb pps.num (ddos_pps_threshold * pps.den)
    then s
    else check_source now (host_ip_for_port dpid port_no) s

unfoldable pub expire_attackers : List String → CampusController → CampusController
unfolding erase append_event
expire_attackers [] s = s
expire_attackers (ip ∷ expired) s = expire_attackers expired (
    append_event (ddos_mitigation_expired ip)
      (record s { ddos_attacker_ips = erase ip s.ddos_attacker_ips }))

unfoldable pub cleanup_ddos_state : ℕ → CampusController → CampusController
unfolding keys_where expire_attackers
cleanup_ddos_state now s =
    let expired = keys_where (is_old now) s.ddos_attacker_ips in
    if is_empty expired
    then s
    else (let s = expire_attackers expired s in
        let s = record s { ddos_active = not (is_empty s.ddos_attacker_ips) } in
        if not s.ddos_active && not s.ctrl_flood_active
        then record s { ddos_attack_type = none }
        else s)
