-- ===== src/Security/Tests.antt =====
-- The security module (tumba_sdn/controller/security_module.py) at concrete inputs.
use ai_driven_software_defin.Base.{
  arith, ℕ, ◌≤◌, ◌≡◌, refl, true, none, some, List, [], ◌∷◌, ◌++◌, String, lookup, member, has_key,
  add, keep, last_n, length, arith, All, unless, holds, if◌then◌else◌, string_eq, nat_eq,
}
use ai_driven_software_defin.OpenFlow.{FlowMod, Packet, matches, eth_type_ip}
use ai_driven_software_defin.OpenFlow.Lookup.{campus_mask}
use ai_driven_software_defin.Security.Drops.{IsDropAt}
use ai_driven_software_defin.Security.Zones.{ip_to_zone, host_ip_for_port, dpid_to_zone}
use ai_driven_software_defin.Security.Module.{
  SecurityModule, init, packet_in_handler, no_scan, scan_after, check_ddos, cleanup, recent_times,
  switch_features_handler,
}
use ai_driven_software_defin.Security.Scan.{
  scan_after-window, no_scan-IsValid, is_recent, ports_of, Distinct,
}
use ai_driven_software_defin.Security.Blocks.{IsValid}
use ai_driven_software_defin.Security.Cleanup.{is_aged, cleanup_lem}
use ai_driven_software_defin.Security.Handlers.{
  Reach, Step, Reach-IsValid, packet_in-forbidden, packet_in_of, forbidden_drop,
}
use ai_driven_software_defin.Security.Floods.{
  check_ddos_lem, IsReaction, recent_times-window, in_window,
}

-- Two switches, one of them with a flooding host behind port 2.
abbrev connected : SecurityModule
connected = switch_features_handler 7 (switch_features_handler 4 init)

zones_of_hosts :
    (ip_to_zone "10.40.0.3" ≡ "student_wifi")
    × (ip_to_zone "192.168.1.1" ≡ "unknown")
    × (dpid_to_zone 6 ≡ "it_lab")
    × (host_ip_for_port 7 11 ≡ some "10.40.0.10")
unfolding ip_to_zone dpid_to_zone host_ip_for_port
zones_of_hosts = (refl, refl, refl, refl)

scan_after-window_example :
    let kept = keep (is_recent 5000) ([] ++ ((80, 5000) ∷ [])) in
    ((scan_after 5000 80 no_scan).ts_deque ≡ kept)
    × ((q : ℕ) → member q (scan_after 5000 80 no_scan).ports ≡ member q (ports_of kept))
    × Distinct (scan_after 5000 80 no_scan).ports
scan_after-window_example = scan_after-window 5000 80 no_scan no_scan-IsValid tt

-- SSH from a host of the student Wi-Fi to one of the staff.
abbrev ssh_to_staff : Packet
ssh_to_staff = record {
  in_port = 4;
  eth_type = eth_type_ip;
  eth_src = "00:00:00:00:00:01";
  eth_dst = "00:00:00:00:00:02";
  ipv4_src = "10.40.0.3";
  ipv4_dst = "10.10.0.1";
  ip_proto = 6;
  tcp_dst = some 22;
  udp_dst = none;
  tcp_src = none;
  udp_src = none;
}

packet_in-forbidden_example :
    ((more : List (ℕ × FlowMod)) × All (IsDropAt 7) more
      × ((packet_in_handler 1000 (packet_in_of 7 ssh_to_staff) init).sent
          ≡ init.sent ++ (more ++ ((7, forbidden_drop ssh_to_staff) ∷ []))))
    × (matches campus_mask (forbidden_drop ssh_to_staff).match ssh_to_staff ≡ true)
unfolding ip_to_zone
packet_in-forbidden_example =
    packet_in-forbidden campus_mask 1000 7 ssh_to_staff init refl refl refl

abbrev flooded : SecurityModule
flooded = check_ddos 2000 7 2 900_000 0 connected

Reach-IsValid_example : IsValid flooded
Reach-IsValid_example = Reach-IsValid (
    Reach.next (Reach.next (Reach.next Reach.here (Step.connect 4)) (Step.connect 7))
      (Step.stats 2000 7 2 900_000 0))

check_ddos_lem_example : IsReaction 2000 7 2 900_000 0 "10.40.0.1" connected flooded
unfolding host_ip_for_port switch_features_handler init has_key add member
check_ddos_lem_example = check_ddos_lem 2000 7 2 900_000 0 "10.40.0.1" connected refl refl refl

cleanup_lem_example :
    ((ip : String)
      → (lookup ip (cleanup 400_000 flooded).ddos_blocked_ips
          ≡ unless (is_aged 305_000 400_000) (lookup ip flooded.ddos_blocked_ips))
        × (lookup ip (cleanup 400_000 flooded).portscan_blocked
            ≡ unless (is_aged 305_000 400_000) (lookup ip flooded.portscan_blocked))
        × (lookup ip (cleanup 400_000 flooded).portscan_state ≡ (
            if holds (is_aged 305_000 400_000) (lookup ip flooded.portscan_blocked)
            then none
            else lookup ip flooded.portscan_state)))
    × ((cleanup 400_000 flooded).sent ≡ flooded.sent)
cleanup_lem_example = cleanup_lem 400_000 flooded Reach-IsValid_example

recent_times-window_example :
    (recent_times 900 (300 ∷ 500 ∷ [])
      ≡ keep (in_window 900) (last_n 500 ((300 ∷ 500 ∷ []) ++ (900 ∷ []))))
    × (length (recent_times 900 (300 ∷ 500 ∷ [])) ≤ 500)
recent_times-window_example = recent_times-window 900 (300 ∷ 500 ∷ []) (omega arith) (omega arith)
