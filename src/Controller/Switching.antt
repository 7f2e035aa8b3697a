-- ===== src/Controller/Switching.antt =====
-- tumba_sdn/controller/main_controller.py: CampusController's handlers for switches and packets.
-- `sent` is the record of the messages sent, each with its switch.
use ai_driven_software_defin.Base.{
  ℕ, ◌+◌, Bool, true, false, Option, none, some, List, [], ◌∷◌, ◌++◌, String, Dict, lookup, insert,
  add, or_else, last_n, nat_beq, nat_eq, string_eq, if◌then◌else◌,
}
use ai_driven_software_defin.OpenFlow.{
  Match, FlowMod, Action, output, normal, flood, controller, port, masked, any_match, flow_mod,
  eth_type_ip, eth_type_arp,
}

-- An OFPPacketOut has the packet's data only if the switch has not buffered the packet.
pub data Message : Type 0 where
  flow : FlowMod → Message
  packet_out : Option ℕ → ℕ → List Action → Bool → Message

pub data ControllerEvent : Type 0 where
  switch_connected : ℕ → ControllerEvent
  link_failure link_recovery : ℕ → ℕ → ControllerEvent

pub record CampusController : Type 0 where
  pub mac_to_port : Dict ℕ (Dict String ℕ)
  pub datapaths : List ℕ
  pub ctrl_events : List ControllerEvent
  pub flow_count : ℕ
  -- The switches with a spawned `_install_zone_policies`.
  pub spawned : List ℕ
  pub sent : List (ℕ × Message)

unfoldable pub init : CampusController
init = record {
  mac_to_port = [];
  datapaths = [];
  ctrl_events = [];
  flow_count = 0;
  spawned = [];
  sent = [];
}

unfoldable pub add_flow :
    ℕ → ℕ → Match → List Action → Option ℕ → CampusController → CampusController
add_flow dpid priority match actions buffer_id s = record s {
  sent =
      s.sent
      ++ ((dpid, flow (record (flow_mod priority match actions 0) { buffer_id = buffer_id })) ∷ []);
  flow_count = s.flow_count + 1;
}

unfoldable pub append_event : ControllerEvent → CampusController → CampusController
append_event event s = record s { ctrl_events = last_n 200 (s.ctrl_events ++ (event ∷ [])) }

unfoldable pub switch_features : ℕ → CampusController → CampusController
unfolding append_event
switch_features dpid s =
    let s1 = record s { datapaths = add dpid s.datapaths } in
    let s2 = add_flow dpid 0 any_match (output controller ∷ []) none s1 in
    let s3 =
      add_flow dpid 200 (record any_match { eth_type = some eth_type_arp }) (output flood ∷ []) none
        s2 in
    let s4 =
      add_flow dpid 200 (record any_match { eth_type = some eth_type_ip; ip_proto = some 1 })
        (output normal ∷ []) none s3 in
    let s5 = append_event (switch_connected dpid) s4 in
    record s5 { spawned = s5.spawned ++ (dpid ∷ []) }

-- The networks of ZONE_SUBNETS, each prefix with its `0`.
abbrev pub zone_networks : List String
zone_networks = "10.10.0.0" ∷ "10.20.0.0" ∷ "10.30.0.0" ∷ "10.40.0.0" ∷ []

abbrev pub network_pair : String → String → Match
network_pair src dst = record any_match {
  eth_type = some eth_type_ip;
  ipv4_src = some (masked src "255.255.255.0");
  ipv4_dst = some (masked dst "255.255.255.0");
}

abbrev pub permitted_flows : List (String × String × List ℕ)
permitted_flows =
    ("10.10.0.0", "10.20.0.0", 80 ∷ 443 ∷ [])
    ∷ ("10.30.0.0", "10.20.0.0", 80 ∷ 443 ∷ 22 ∷ 3306 ∷ [])
    ∷ ("10.40.0.0", "10.20.0.0", 80 ∷ 443 ∷ [])
    ∷ []

unfoldable pub allow_zones : ℕ → List String → CampusController → CampusController
allow_zones dpid [] s = s
allow_zones dpid (nw ∷ nws) s =
    allow_zones dpid nws (add_flow dpid 150 (network_pair nw nw) (output normal ∷ []) none s)

unfoldable pub allow_ports : ℕ → String → String → List ℕ → CampusController → CampusController
allow_ports dpid src dst [] s = s
allow_ports dpid src dst (tcp ∷ ports) s = allow_ports dpid src dst ports (
    add_flow dpid 250 (record (network_pair src dst) { ip_proto = some 6; tcp_dst = some tcp })
      (output normal ∷ []) none s)

unfoldable pub allow_flows :
    ℕ → List (String × String × List ℕ) → CampusController → CampusController
allow_flows dpid [] s = s
allow_flows dpid ((src, dst, ports) ∷ flows) s =
    allow_flows dpid flows (allow_ports dpid src dst ports s)

unfoldable pub install_zone_policies : ℕ → CampusController → CampusController
install_zone_policies dpid s = allow_flows dpid permitted_flows (
    add_flow dpid 300 (network_pair "10.40.0.0" "10.10.0.0") [] none
      (allow_zones dpid zone_networks s))

-- The Ethernet header of a packet, if it has one; no buffer is OFP_NO_BUFFER.
pub record EthernetHeader : Type 0 where
  pub ethertype : ℕ
  pub src : String
  pub dst : String

pub record PacketIn : Type 0 where
  pub dpid : ℕ
  pub in_port : ℕ
  pub buffer_id : Option ℕ
  pub eth : Option EthernetHeader

abbrev pub eth_type_lldp : ℕ
eth_type_lldp = 0x88cc

abbrev pub learn : ℕ → ℕ → String → CampusController → CampusController
learn dpid in_port src s = record s {
  mac_to_port =
      insert dpid (insert src in_port (or_else (lookup dpid s.mac_to_port) [])) s.mac_to_port;
}

abbrev pub send_out : ℕ → Message → CampusController → CampusController
send_out dpid message s = record s { sent = s.sent ++ ((dpid, message) ∷ []) }

-- What `packet_in` sends, for the port learned for the destination.
unfoldable pub forward :
    ℕ → ℕ → EthernetHeader → Option ℕ → Option ℕ → CampusController → CampusController
forward dpid in_port eth none none s =
    send_out dpid (packet_out none in_port (output flood ∷ []) true) s
forward dpid in_port eth (some buffer) none s =
    send_out dpid (packet_out (some buffer) in_port (output flood ∷ []) false) s
forward dpid in_port eth (some buffer) (some out_port) s =
    add_flow dpid 10
      (record any_match { in_port = some in_port; eth_dst = some eth.dst; eth_src = some eth.src })
      (output (port out_port) ∷ []) (some buffer) s
forward dpid in_port eth none (some out_port) s =
    send_out dpid (packet_out none in_port (output (port out_port) ∷ []) true) (
      add_flow dpid 10
        (record any_match {
          in_port = some in_port;
          eth_dst = some eth.dst;
          eth_src = some eth.src;
        })
        (output (port out_port) ∷ []) none s)

unfoldable pub receive :
    ℕ → ℕ → Option ℕ → Option EthernetHeader → CampusController → CampusController
receive dpid in_port buffer_id none s = s
receive dpid in_port buffer_id (some eth) s =
    let s1 = learn dpid in_port eth.src s in
    let known = lookup eth.dst (or_else (lookup dpid s1.mac_to_port) []) in
    let after = forward dpid in_port eth buffer_id known s1 in
    if nat_beq eth.ethertype eth_type_lldp then s else after

unfoldable pub packet_in : PacketIn → CampusController → CampusController
unfolding receive
packet_in ev s = receive ev.dpid ev.in_port ev.buffer_id ev.eth s

unfoldable pub port_status : ℕ → ℕ → Bool → CampusController → CampusController
unfolding append_event
port_status dpid port_no is_up s =
    append_event (if is_up then link_recovery dpid port_no else link_failure dpid port_no) s

-- The states that calls reach from a state, in any order.
pub data Steps (s : CampusController) : CampusController → Type 0 where
  here : Steps s s
  features : {t : CampusController} (dpid : ℕ) → Steps s t → Steps s (switch_features dpid t)
  policies : {t : CampusController} (dpid : ℕ) → Steps s t → Steps s (install_zone_policies dpid t)
  packet : {t : CampusController} (ev : PacketIn) → Steps s t → Steps s (packet_in ev t)
  status :
      {t : CampusController} (dpid port_no : ℕ) (is_up : Bool)
      → Steps s t
      → Steps s (port_status dpid port_no is_up t)
