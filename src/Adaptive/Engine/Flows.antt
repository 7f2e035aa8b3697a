-- ===== src/Adaptive/Engine/Flows.antt =====
-- examples/campus_controller.py: `_policy_map_for_switch` and `_install_policy_engine_flows`.
use ai_driven_software_defin.Base.{
  ℕ, Option, none, some, List, [], ◌∷◌, ◌++◌, String, Dict, insert, length, map, nat_beq, nat_eq,
  member, if◌then◌else◌,
}
use ai_driven_software_defin.OpenFlow.{
  FlowMod, Match, output, set_queue, port, any_match, flow_mod, exact, eth_type_ip,
}
use ai_driven_software_defin.Adaptive.Tables.{
  policy_engine_cookie, primary_server_ip, it_client_ports, net_client_ports, staff_client_ports,
  wifi_client_ports,
}
use ai_driven_software_defin.Adaptive.State.{
  CampusController, append_event, policy_engine_programmed,
}
use ai_driven_software_defin.Adaptive.Routing.Policy.{add_flows}

-- The uplink and the clients of a switch.
unfoldable pub policy_map_for_switch : ℕ → Option (ℕ × Dict String ℕ)
unfolding member
policy_map_for_switch dpid =
    if nat_beq dpid 2
    then some (1, it_client_ports)
    else if nat_beq dpid 3
    then some (1, net_client_ports)
    else if member dpid (4 ∷ 5 ∷ 6 ∷ 9 ∷ 10 ∷ [])
    then some (1, it_client_ports)
    else if member dpid (7 ∷ 8 ∷ 11 ∷ 12 ∷ [])
    then some (1, net_client_ports)
    else if nat_beq dpid 13
    then some (1, wifi_client_ports)
    else if nat_beq dpid 14
    then some (1, staff_client_ports)
    else none

abbrev pub academic_tcp_ports : List ℕ
academic_tcp_ports = 8443 ∷ 9443 ∷ []

abbrev pub auth_udp_ports : List ℕ
auth_udp_ports = 67 ∷ 68 ∷ 1812 ∷ 1813 ∷ []

abbrev pub realtime_udp_ports : List ℕ
realtime_udp_ports = 5204 ∷ []

abbrev pub bulk_tcp_ports : List ℕ
bulk_tcp_ports = 5201 ∷ 5203 ∷ 6881 ∷ []

abbrev pub normal_tcp_ports : List ℕ
normal_tcp_ports = 80 ∷ 443 ∷ 8008 ∷ 8088 ∷ []

-- `push` of a match with `qout` of a queue and a port.
abbrev pub push : ℕ → Match → ℕ → ℕ → FlowMod
push priority m queue_id out_port =
    flow_mod priority m (set_queue queue_id ∷ output (port out_port) ∷ []) policy_engine_cookie

-- The flows of the service classes: how a TCP port, a UDP port and all other IP packets are matched,
-- and the port that they go out at.
abbrev pub class_flows : (ℕ → Match) → (ℕ → Match) → Match → ℕ → List FlowMod
class_flows tcp udp other out_port =
    map (λ p. push 340 (tcp p) 0 out_port) academic_tcp_ports
    ++ (map (λ p. push 330 (udp p) 0 out_port) auth_udp_ports
        ++ (map (λ p. push 335 (udp p) 0 out_port) realtime_udp_ports
            ++ (map (λ p. push 320 (tcp p) 2 out_port) bulk_tcp_ports
                ++ (map (λ p. push 310 (tcp p) 1 out_port) normal_tcp_ports
                    ++ (push 250 other 1 out_port ∷ [])))))

abbrev pub to_server_match : Match
to_server_match = record any_match {
  eth_type = some eth_type_ip;
  ipv4_dst = some (exact primary_server_ip);
}

-- From the clients to the primary server.
abbrev pub to_server : ℕ → List FlowMod
to_server uplink =
    class_flows (λ p. record to_server_match { ip_proto = some 6; tcp_dst = some p })
      (λ p. record to_server_match { ip_proto = some 17; udp_dst = some p }) to_server_match uplink

abbrev pub to_client_match : ℕ → String → Match
to_client_match uplink client_ip = record any_match {
  in_port = some uplink;
  eth_type = some eth_type_ip;
  ipv4_src = some (exact primary_server_ip);
  ipv4_dst = some (exact client_ip);
}

-- From the primary server to one client.
abbrev pub to_client : ℕ → String → ℕ → List FlowMod
to_client uplink client_ip client_port =
    class_flows
      (λ p. record (to_client_match uplink client_ip) { ip_proto = some 6; tcp_src = some p })
      (λ p. record (to_client_match uplink client_ip) { ip_proto = some 17; udp_src = some p })
      (to_client_match uplink client_ip) client_port

abbrev pub to_clients : ℕ → Dict String ℕ → List FlowMod
to_clients uplink [] = []
to_clients uplink ((client_ip, client_port) ∷ clients) =
    to_client uplink client_ip client_port ++ to_clients uplink clients

abbrev pub engine_flows : Option (ℕ × Dict String ℕ) → List FlowMod
engine_flows none = []
engine_flows (some (uplink, clients)) = to_server uplink ++ to_clients uplink clients

unfoldable pub program : ℕ → Option (ℕ × Dict String ℕ) → CampusController → CampusController
unfolding insert add_flows append_event
program dpid none s = s
program dpid (some (uplink, clients)) s =
    let flows = engine_flows (some (uplink, clients)) in
    let t = add_flows dpid flows s in
    append_event (policy_engine_programmed dpid (length flows) uplink)
      (record t { policy_engine_rules = insert dpid (length flows) s.policy_engine_rules })

unfoldable pub install_policy_engine_flows : ℕ → CampusController → CampusController
unfolding policy_map_for_switch program
install_policy_engine_flows dpid s = program dpid (policy_map_for_switch dpid) s
