-- ===== src/Controller/Tests.antt =====
-- tumba_sdn/controller/main_controller.py: runs of the handlers.
use ai_driven_software_defin.Base.{first_some, ◌≡◌, refl, none, some, [], ◌∷◌}
use ai_driven_software_defin.OpenFlow.{FlowMod, eth_type_ip}
use ai_driven_software_defin.OpenFlow.Lookup.{campus_switch, campus_mask}
use ai_driven_software_defin.Controller.Switching.{
  CampusController, PacketIn, here, features, packet, init, switch_features, install_zone_policies,
  packet_in,
}
use ai_driven_software_defin.Controller.Growth.{table_of}
use ai_driven_software_defin.Controller.Policies.{student_to_staff-drop}
use ai_driven_software_defin.Controller.Learning.{
  learned_port, packets_in, last_port, learned_port-packets_in,
}

abbrev from_a_to_b : PacketIn
from_a_to_b = record {
  dpid = 7;
  in_port = 2;
  buffer_id = none;
  eth = some (record { ethertype = 0x800; src = "a"; dst = "b" });
}

abbrev from_b_to_a : PacketIn
from_b_to_a = record {
  dpid = 7;
  in_port = 3;
  buffer_id = some 5;
  eth = some (record { ethertype = 0x800; src = "b"; dst = "a" });
}

abbrev connected : CampusController
connected = switch_features 7 init

abbrev running : CampusController
running = packet_in from_b_to_a (packet_in from_a_to_b (install_zone_policies 7 connected))

student_to_staff-drop_example :
    (r : FlowMod) × (campus_switch.select (table_of 7 running.sent) (record {
      in_port = 2;
      eth_type = eth_type_ip;
      eth_src = "a";
      eth_dst = "b";
      ipv4_src = "10.40.0.3";
      ipv4_dst = "10.10.0.1";
      ip_proto = 1;
      tcp_dst = none;
      udp_dst = none;
      tcp_src = none;
      udp_src = none;
    })
      ≡ some r)
    × (r.actions ≡ [])
unfolding campus_mask
student_to_staff-drop_example =
    student_to_staff-drop campus_switch _ 7 connected running (features 7 here)
      (packet from_b_to_a (packet from_a_to_b here)) refl refl refl

learned_port-packets_in_example :
    learned_port 7 "a" (packets_in (from_a_to_b ∷ from_b_to_a ∷ []) init)
    ≡ first_some (last_port 7 "a" (from_a_to_b ∷ from_b_to_a ∷ [])) (learned_port 7 "a" init)
learned_port-packets_in_example =
    learned_port-packets_in (from_a_to_b ∷ from_b_to_a ∷ []) 7 "a" init
