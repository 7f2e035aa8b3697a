-- ===== src/Adaptive/Routing/Policy.antt =====
-- examples/campus_controller.py: `_update_port_congestion`, `_is_congested`, the flows of the reroute
-- policy and `_set_reroute_policy`.
use ai_driven_software_defin.Base.{
  ℕ, Bool, true, false, not, ◌&&◌, ◌||◌, some, List, [], ◌∷◌, String, add, member, discard,
  is_empty, nat_beq, nat_eq, pair_eq, map, if◌then◌else◌,
}
use ai_driven_software_defin.OpenFlow.{
  FlowMod, Action, output, set_queue, set_ipv4_src, set_ipv4_dst, set_eth_dst, port, Match,
  any_match, flow_mod, exact, eth_type_ip,
}
use ai_driven_software_defin.Adaptive.State.{
  Port, Fraction, at_least, at_most, CampusController, add_flow, append_event, delete_cookie_flows,
  port_congestion_on, port_congestion_off, policy_activated, policy_deactivated,
}
use ai_driven_software_defin.Adaptive.Tables.{
  policy_cookie, primary_server_ip, backup_server_ip, backup_server_mac, zone_student_lab,
  wifi_client_ports, it_dpid, net_dpid, wifi_dpid,
}

unfoldable pub update_port_congestion : Port → Fraction → CampusController → CampusController
unfolding at_least at_most add discard member append_event
update_port_congestion key util_pct s =
    let is_active = member key s.congested_ports in
    if not is_active && at_least util_pct s.thresholds.port_congest_high_pct
    then append_event (port_congestion_on key)
        (record s { congested_ports = add key s.congested_ports })
    else if is_active && at_most util_pct s.thresholds.port_congest_low_pct
    then append_event (port_congestion_off key)
        (record s { congested_ports = discard key s.congested_ports })
    else s

unfoldable pub is_congested : Fraction → CampusController → Bool
unfolding at_least
is_congested mbps s =
    at_least mbps s.thresholds.congest_high_mbps
    || not (is_empty s.congested_ports)
    || s.reroute_active

-- A flow of the policy, with its idle timeout.
abbrev pub policy_flow : ℕ → Match → List Action → ℕ → FlowMod
policy_flow priority m actions idle = record (flow_mod priority m actions policy_cookie) {
  idle_timeout = idle;
}

-- On s2: the pings of a lab to the primary server go to the backup server.
abbrev pub redirect : String → FlowMod
redirect src_ip =
    policy_flow 200
      (record any_match {
        eth_type = some eth_type_ip;
        ip_proto = some 1;
        ipv4_src = some (exact src_ip);
        ipv4_dst = some (exact primary_server_ip);
      })
      (set_ipv4_dst backup_server_ip ∷ set_eth_dst backup_server_mac ∷ output (port 1) ∷ []) 10

-- On s3: the answers of the backup server come from the primary one.
abbrev pub redirect_back : String → FlowMod
redirect_back dst_ip =
    policy_flow 200
      (record any_match {
        in_port = some 4;
        eth_type = some eth_type_ip;
        ip_proto = some 1;
        ipv4_src = some (exact backup_server_ip);
        ipv4_dst = some (exact dst_ip);
      })
      (set_ipv4_src primary_server_ip ∷ output (port 1) ∷ []) 10

abbrev pub between : String → String → Match
between src dst = record any_match {
  eth_type = some eth_type_ip;
  ipv4_src = some (exact src);
  ipv4_dst = some (exact dst);
}

abbrev pub throttle : List (String × ℕ) → List FlowMod
throttle [] = []
throttle ((ip_addr, out_port) ∷ clients) =
    policy_flow 180 (between primary_server_ip ip_addr) (set_queue 2 ∷ output (port out_port) ∷ [])
      12
    ∷ policy_flow 180 (between ip_addr primary_server_ip) (set_queue 2 ∷ output (port 1) ∷ []) 12
    ∷ throttle clients

unfoldable pub policy_flows : ℕ → List FlowMod
policy_flows dpid =
    if nat_beq dpid it_dpid
    then map redirect zone_student_lab
    else if nat_beq dpid net_dpid
    then map redirect_back zone_student_lab
    else if nat_beq dpid wifi_dpid
    then throttle wifi_client_ports
    else []

unfoldable pub add_flows : ℕ → List FlowMod → CampusController → CampusController
unfolding add_flow
add_flows dpid [] s = s
add_flows dpid (r ∷ rs) s = add_flows dpid rs (add_flow dpid r s)

unfoldable pub install_policy_flows : ℕ → CampusController → CampusController
unfolding add_flows policy_flows
install_policy_flows dpid s = add_flows dpid (policy_flows dpid) s

unfoldable pub set_policy : Bool → List ℕ → CampusController → CampusController
unfolding install_policy_flows delete_cookie_flows
set_policy enabled [] s = s
set_policy enabled (dpid ∷ dpids) s =
    set_policy enabled dpids
      (if enabled then install_policy_flows dpid s else delete_cookie_flows dpid policy_cookie s)

abbrev pub bool_beq : Bool → Bool → Bool
bool_beq true b = b
bool_beq false b = not b

unfoldable pub set_reroute_policy : Bool → CampusController → CampusController
unfolding append_event set_policy
set_reroute_policy enabled s =
    if bool_beq s.reroute_active enabled
    then s
    else set_policy enabled s.datapaths (
        append_event (if enabled then policy_activated else policy_deactivated)
          (record s { reroute_active = enabled }))
