-- ===== src/Adaptive/Tests.antt =====
-- Concrete runs of examples/campus_controller.py.
use ai_driven_software_defin.Base.{
  raised, inr, pos, nat_eq, ℕ, ◌≡◌, ◌⊎◌, refl, inl, true, not, ◌&&◌, ◌||◌, none, some, List, [],
  ◌∷◌, ◌++◌, All, String, member, has_key, lookup, leb, length, pair_beq, pair_eq, if◌then◌else◌,
  string_eq,
}
use ai_driven_software_defin.OpenFlow.{Packet, FlowMod, eth_type_ip}
use ai_driven_software_defin.OpenFlow.Lookup.{campus_switch}
use ai_driven_software_defin.Adaptive.Tables.{it_client_ports}
use ai_driven_software_defin.Adaptive.Handlers.Packets.{switch_features_handler}
use ai_driven_software_defin.Adaptive.Engine.Flows.{policy_map_for_switch}
use ai_driven_software_defin.Adaptive.Engine.Clients.{IsForwarded}
use ai_driven_software_defin.Adaptive.Engine.Uplink.{
  features_flows, connection, IsKept, switch_features-uplink,
}
use ai_driven_software_defin.Adaptive.Zones.{
  Payload, absent, not_iterable, listed, missing, number, below_zero, normalize_security_policy,
  default_security_policy,
}
use ai_driven_software_defin.Adaptive.State.{Fraction, CampusController, Message, flow}
use ai_driven_software_defin.Adaptive.Start.{new_controller}
use ai_driven_software_defin.Adaptive.Routing.Policy.{update_port_congestion, is_congested}
use ai_driven_software_defin.Adaptive.Routing.Settings.{value, unset, unreadable}
use ai_driven_software_defin.Adaptive.Routing.Decisions.{
  MlAction, Files, resolve_dqn_routing_choice, requested_choice,
}
use ai_driven_software_defin.Adaptive.Routing.Settings.{Settings, apply_threshold_settings}
use ai_driven_software_defin.Adaptive.Routing.Hysteresis.{schmitt, update_port_congestion-member}
use ai_driven_software_defin.Adaptive.Routing.Override.{resolve_dqn_routing_choice_lem}
use ai_driven_software_defin.Adaptive.Attacks.Floods.{
  check_port_ddos, mitigate_ctrl_flood, host_ip_for_port,
}
use ai_driven_software_defin.Adaptive.Attacks.Distinct.{
  entry_of, run_contacts, distinct_ports, run_contacts-alerted,
}
use ai_driven_software_defin.Adaptive.Attacks.Everywhere.{flood_drop, check_port_ddos-first}
use ai_driven_software_defin.Adaptive.Attacks.Flags.{
  cleanups, cleanups-ddos_active, host_ip_for_port-shared, s4_hosts,
}
use ai_driven_software_defin.Adaptive.Security.Verdict.{
  verdict, drop, access_match, security_drop, ip_match,
}
use ai_driven_software_defin.Adaptive.Security.Normalized.{
  IsSound, IsRead, is_readable, normalize_security_policy-IsSound,
}
use ai_driven_software_defin.Adaptive.Security.Isolation.{IsMet, verdict-IsMet}
use ai_driven_software_defin.Adaptive.Handlers.Stats.{PortStat, port_stats_reply_handler}
use ai_driven_software_defin.Adaptive.Handlers.Packets.{packet_in_handler}
use ai_driven_software_defin.Adaptive.Handlers.Reroute.{after, Run, rest, reply, Run-reroute_active}
use ai_driven_software_defin.Adaptive.Handlers.Dropped.{IsDrop, packet_in_handler-isolated}

abbrev ninety : Fraction
ninety = record { num = 90; den = 1 }

update_port_congestion_example :
    member (4, 2) (update_port_congestion (4, 2) ninety new_controller).congested_ports ≡ (
      if pair_beq (4, 2) (4, 2)
      then schmitt ninety new_controller.thresholds (member (4, 2) new_controller.congested_ports)
      else member (4, 2) new_controller.congested_ports)
update_port_congestion_example = update_port_congestion-member (4, 2) (4, 2) ninety new_controller

-- Low thresholds above the high ones.
abbrev crossed : Settings
crossed = record {
  congest_high_mbps = value (pos 50000);
  congest_low_mbps = value (pos 60000);
  port_congest_high_pct = unset;
  port_congest_low_pct = value (pos 90000);
}

-- A low threshold that is no number, behind a high one that is set before the error.
half_read :
    apply_threshold_settings (record crossed { congest_low_mbps = unreadable }) new_controller
    ≡ raised (record new_controller {
      thresholds = record new_controller.thresholds { congest_high_mbps = pos 50000 };
    })
unfolding apply_threshold_settings
half_read = refl

abbrev no_settings : Settings
no_settings = record {
  congest_high_mbps = unset;
  congest_low_mbps = unset;
  port_congest_high_pct = unset;
  port_congest_low_pct = unset;
}

abbrev keep_primary : MlAction
keep_primary = record {
  routing_choice = some "keep_primary";
  dqn_action = some "keep_primary";
  settings = no_settings;
  force_reroute = none;
}

abbrev rerouted : CampusController
rerouted = record new_controller { reroute_active = true }

resolve_example : resolve_dqn_routing_choice keep_primary ninety rerouted ≡ (
  is_congested ninety rerouted || requested_choice keep_primary ninety rerouted,
  is_congested ninety rerouted && not (requested_choice keep_primary ninety rerouted),
)
resolve_example = resolve_dqn_routing_choice_lem keep_primary ninety rerouted

-- Two contacts of one source, an hour apart.
abbrev contacts : List (ℕ × ℕ)
contacts = (1000000, 22) ∷ (3601000000, 23) ∷ []

run_contacts_example :
    (entry_of "10.1.7.1" (run_contacts contacts "10.1.7.1" 4 new_controller)).alerted
    ≡ leb 30 (length (distinct_ports contacts []))
unfolding lookup
run_contacts_example = run_contacts-alerted contacts "10.1.7.1" 4 new_controller refl refl

abbrev connected : CampusController
connected = record new_controller { datapaths = 1 ∷ 2 ∷ 4 ∷ [] }

-- A thousand packets in a second on port 2 of s4.
abbrev thousand : Fraction
thousand = record { num = 1000; den = 1 }

check_port_ddos_example :
    ((check_port_ddos 5 4 2 thousand connected).sent ≡ connected.sent)
    ⊎ ((ip : String) × ((check_port_ddos 5 4 2 thousand connected).sent
          ≡ connected.sent ++ ((1, flow (flood_drop ip)) ∷ [])))
check_port_ddos_example = check_port_ddos-first 5 4 2 thousand connected 1 (2 ∷ 4 ∷ []) refl

first_switch_only :
    (check_port_ddos 5 4 2 thousand connected).sent ≡ (1, flow (flood_drop "10.1.7.1")) ∷ []
unfolding check_port_ddos
first_switch_only = refl

cleanups_example :
    (cleanups
      (100000000 ∷ 200000000 ∷ [])
      (mitigate_ctrl_flood 1000000 4 2 new_controller)).ddos_active
    ≡ true
unfolding cleanups has_key
cleanups_example =
    cleanups-ddos_active (100000000 ∷ 200000000 ∷ []) 1000000 4 2 new_controller refl refl

host_ip_for_port_example : host_ip_for_port 5 2 ≡ lookup 2 s4_hosts
host_ip_for_port_example = host_ip_for_port-shared 5 2 (inr (inl refl))

abbrev payload : Payload
payload = record {
  enabled = some true;
  protected_server_ips = none;
  restricted_source_zones = listed ("it_lab" ∷ "moon" ∷ []);
  block_zone_pairs = absent;
  allow_icmp_to_servers = none;
  allowed_server_tcp_ports = listed (number 22 ∷ below_zero 3 ∷ number 70000 ∷ []);
  allowed_server_udp_ports = absent;
  drop_priority = number 1000;
  drop_idle_timeout_s = number 5;
  drop_hard_timeout_s = missing;
}

normalize_example :
    IsRead IsSound
      (is_readable (some payload))
      (normalize_security_policy (λ ip. true) (some payload))
normalize_example = normalize_security_policy-IsSound (λ ip. true) (some payload)

-- `"block_zone_pairs": null`.
null_pairs :
    normalize_security_policy
      (λ ip. true)
      (some (record payload { block_zone_pairs = not_iterable }))
    ≡ none
unfolding normalize_security_policy
null_pairs = refl

-- A TCP packet to port 22, from a lab to the server or to an admin host.
abbrev ssh_to : String → Packet
ssh_to dst = record {
  in_port = 2;
  eth_type = eth_type_ip;
  eth_src = "00:00:00:00:00:01";
  eth_dst = "00:00:00:00:00:02";
  ipv4_src = "10.1.2.1";
  ipv4_dst = dst;
  ip_proto = 6;
  tcp_dst = some 22;
  udp_dst = none;
  tcp_src = none;
  udp_src = none;
}

verdict_example :
    IsMet
      (λ addr mask. addr)
      (ssh_to "10.0.1.10")
      (verdict default_security_policy (ssh_to "10.0.1.10"))
verdict_example =
    verdict-IsMet (λ addr mask. addr) default_security_policy (ssh_to "10.0.1.10")
      ((λ h. refl), (λ h. absurd (h refl)))

packet_in_handler_example :
    (more : List (ℕ × Message)) × All IsDrop more
    × ((packet_in_handler 5 8 none (some (ssh_to "10.4.1.1")) new_controller).sent
        ≡ new_controller.sent
          ++ (more
              ++ ((
                8,
                flow (security_drop default_security_policy (ip_match (ssh_to "10.4.1.1")) none),
              )
                  ∷ [])))
packet_in_handler_example =
    packet_in_handler-isolated 5 8 none (ssh_to "10.4.1.1") new_controller refl refl (inl refl)
      (inl refl)

-- A reply of the core with a silent link to the servers.
abbrev quiet : List PortStat
quiet = record { port_no = 1; rx_bytes = 0; tx_bytes = 0; rx_packets = 0 } ∷ []

abbrev no_files : Files
no_files = record { manual = none; action = none }

abbrev first_quiet : CampusController
unfolding port_stats_reply_handler
first_quiet = after (λ ip. true) (port_stats_reply_handler no_files none 2000000 1 quiet rerouted)

abbrev after_quiet : CampusController
unfolding port_stats_reply_handler
after_quiet =
    after (λ ip. true) (port_stats_reply_handler no_files none 4000000 1 quiet first_quiet)

quiet_run : Run (λ ip. true) 6000000 true rerouted after_quiet
unfolding after_quiet first_quiet
quiet_run =
    reply true no_files none 2000000 1 quiet rerouted after_quiet refl (
      reply true no_files none 4000000 1 quiet first_quiet after_quiet refl (rest true after_quiet))

Run_example : after_quiet.reroute_active ≡ true
Run_example = Run-reroute_active (λ ip. true) 6000000 true rerouted after_quiet refl refl quiet_run

-- The security policy forbids SSH to the server from the labs.
ssh_forbidden :
    verdict default_security_policy (ssh_to "10.0.1.10")
    ≡ drop (access_match (ssh_to "10.0.1.10") (some 22) none) "unapproved_server_access"
unfolding verdict
ssh_forbidden = refl

switch_features-uplink_example :
    ((switch_features_handler 4 new_controller).sent ≡ new_controller.sent ++ connection 4)
    × All IsKept (features_flows 4)
    × ((r : FlowMod) × (campus_switch.select (features_flows 4) (ssh_to "10.0.1.10") ≡ some r)
        × IsForwarded 1 r)
unfolding policy_map_for_switch
switch_features-uplink_example =
    switch_features-uplink campus_switch 4 1 it_client_ports (ssh_to "10.0.1.10") new_controller
      refl refl refl
