-- ===== src/Monitor/Tests.antt =====
-- Concrete runs of tumba_sdn/controller/traffic_monitor.py.
use ai_driven_software_defin.Base.{
  ℕ, ◌≡◌, ◌↔◌, refl, inl, true, List, [], ◌∷◌, In, member, leb, pair_eq,
}
use ai_driven_software_defin.Monitor.State.{Rate, PortStat, TrafficMonitor, new_monitor}
use ai_driven_software_defin.Monitor.Stats.{port_stats_reply_handler}
use ai_driven_software_defin.Monitor.Alarm.{Reading, check_all, observe_all, congested_ports_lem}
use ai_driven_software_defin.Monitor.Invariant.{Reach, begin, reply, IsValid, monitor_Reach-IsValid}
use ai_driven_software_defin.Monitor.Reports.{zone_flag, zone_congested_lem}

-- 90 and 10 Mbps for two seconds.
abbrev busy : Rate
busy = record { bits = 180000000; ms = 2000 }

abbrev calm : Rate
calm = record { bits = 20000000; ms = 2000 }

abbrev reading : ℕ → Rate → Reading
reading port_no rate = record { key = (4, port_no); rate = rate; capacity = 100 }

abbrev readings : List Reading
readings = reading 2 busy ∷ reading 3 busy ∷ reading 2 busy ∷ reading 3 calm ∷ reading 2 busy ∷ []

congested_ports_example :
    member (4, 2) (check_all readings new_monitor).congested_ports
    ≡ leb 3 (observe_all readings (λ j. 0) (4, 2))
congested_ports_example = congested_ports_lem readings (4, 2)

-- A reply of as1, with so many bytes received on port 2.
abbrev body : ℕ → List PortStat
body bytes =
    record { port_no = 2; rx_bytes = bytes; tx_bytes = 0; rx_packets = bytes; tx_packets = 0 } ∷ []

-- Four replies, each 22.5 MB and two seconds after the last: three readings of 90 Mbps.
abbrev run : TrafficMonitor
unfolding port_stats_reply_handler
run = port_stats_reply_handler 6000 4 (body 67500000) (
    port_stats_reply_handler 4000 4 (body 45000000) (
      port_stats_reply_handler 2000 4 (body 22500000)
        (port_stats_reply_handler 0 4 (body 0) new_monitor)))

run-Reach : Reach run
unfolding run
run-Reach =
    reply 6000 4 (body 67500000)
      (reply 4000 4 (body 45000000) (reply 2000 4 (body 22500000) (reply 0 4 (body 0) begin)))

run_zone : zone_flag "staff_lan" run ≡ true
unfolding run port_stats_reply_handler
run_zone = refl

monitor_Reach_example : IsValid run
monitor_Reach_example = monitor_Reach-IsValid run run-Reach

zone_congested_example :
    (zone_flag "staff_lan" (port_stats_reply_handler 8000 4 (body 90000000) run) ≡ true) ↔ (
      (port : ℕ) × In
        (4, port)
        (port_stats_reply_handler 8000 4 (body 90000000) run).congested_ports)
zone_congested_example =
    zone_congested_lem 8000 4 (body 90000000) run ("staff_lan", 4) run-Reach (inl refl)
