-- ===== src/Adaptive/Handlers/Silent.antt =====
-- examples/campus_controller.py: the statistics of a controller whose agent is silent. Reading them
-- does not end an active reroute.
use ai_driven_software_defin.Base.{
  returned, Holds, then_do-Holds, ℕ, ◌+◌, ◌*◌, ◌-◌, true, not, ◌&&◌, ◌||◌, Option, none, some, List,
  [], ◌∷◌, String, lookup, insert, erase, add, discard, or_else, has_key, member, ltb, nat_beq,
  nat_eq, string_eq, pair_eq, if◌then◌else◌, if-both,
}
use ai_driven_software_defin.Adaptive.Tables.{port_capacity_mbps}
use ai_driven_software_defin.Adaptive.State.{
  Port, Fraction, CampusController, add_flow, append_event, at_least, at_most, port_congestion_on,
  port_congestion_off, ddos_detected, data_plane,
}
use ai_driven_software_defin.Adaptive.Routing.Policy.{update_port_congestion}
use ai_driven_software_defin.Adaptive.Routing.Decisions.{Files, evaluate_congestion}
use ai_driven_software_defin.Adaptive.Routing.Override.{IsRerouted}
use ai_driven_software_defin.Adaptive.Routing.Silence.{IsSilent, evaluate_congestion-keep}
use ai_driven_software_defin.Adaptive.Attacks.Floods.{
  check_port_ddos, check_source, unless_blocked, install_on_all, install_ddos_drop,
  host_ip_for_port, ddos_pps_threshold, second, type_or,
}
use ai_driven_software_defin.Adaptive.Attacks.Everywhere.{flood_drop}
use ai_driven_software_defin.Adaptive.Handlers.Stats.{
  PortStat, ofpp_local, rate_since, util_pct, check_packets, set_entry, read_bytes, sample,
  read_stat, read_port, read_stats, is_core_port,
}

install_on_all-keep :
    (now : ℕ) (dpids : List ℕ) (src_ip : String) (s : CampusController)
    → IsRerouted s
    → IsRerouted (install_on_all now dpids src_ip s)
unfolding install_on_all install_ddos_drop add_flow append_event
install_on_all-keep now [] src_ip s h = h
install_on_all-keep now (d ∷ dpids) src_ip s h =
    install_on_all-keep now dpids src_ip (install_ddos_drop now d src_ip s) (
      if-both IsRerouted (has_key src_ip s.ddos_attacker_ips) s
        (append_event (ddos_detected src_ip) (record (add_flow d (flood_drop src_ip) s) {
          ddos_attacker_ips = insert src_ip now s.ddos_attacker_ips;
          ddos_blocked_flows = s.ddos_blocked_flows + 1;
          ddos_active = true;
          ddos_detection_ts = now;
          ddos_attack_type = some (type_or s.ddos_attack_type data_plane);
        }))
        (λ e. h) (λ e. h))

check_source-keep :
    (now : ℕ) (source : Option String) (s : CampusController)
    → IsRerouted s
    → IsRerouted (check_source now source s)
unfolding check_source unless_blocked
check_source-keep now none s h = h
check_source-keep now (some ip) s h =
    let blocked = or_else (lookup ip s.recent_security_block_src) 0 in
    let t : CampusController = record s {
      recent_security_block_src = erase ip s.recent_security_block_src;
    } in
    let recent = ltb (now - blocked) (300 * second) in
    let all = install_on_all now s.datapaths ip s in
    let later = install_on_all now s.datapaths ip t in
    if-both IsRerouted (has_key ip s.ddos_attacker_ips || member ip s.simulation_probe_ips) s
      (if nat_beq blocked 0 then all else if recent then s else later) (λ e. h)
      (λ e.
        if-both IsRerouted (nat_beq blocked 0) all (if recent then s else later)
          (λ f. install_on_all-keep now s.datapaths ip s h)
          (λ f.
            if-both IsRerouted recent s later (λ g. h)
              (λ g. install_on_all-keep now s.datapaths ip t h)))

check_packets-keep :
    (now dpid : ℕ) (stat : PortStat) (prev : Option (ℕ × ℕ)) (s : CampusController)
    → IsRerouted s
    → IsRerouted (check_packets now dpid stat prev s)
unfolding check_packets check_port_ddos
check_packets-keep now dpid stat none s h = h
check_packets-keep now dpid stat (some prev) s h =
    let pps = rate_since second now stat.rx_packets prev in
    let t : CampusController = record s {
      ddos_port_pps = insert (dpid, stat.port_no) pps s.ddos_port_pps;
    } in
    let source = host_ip_for_port dpid stat.port_no in
    if-both IsRerouted (ltb pps.num (ddos_pps_threshold * pps.den)) t (check_source now source t)
      (λ e. h) (λ e. check_source-keep now source t h)

update_port_congestion-keep :
    (key : Port) (util : Fraction) (s : CampusController)
    → IsRerouted s
    → IsRerouted (update_port_congestion key util s)
unfolding update_port_congestion append_event
update_port_congestion-keep key util s h =
    let is_active = member key s.congested_ports in
    let on =
      append_event (port_congestion_on key)
        (record s { congested_ports = add key s.congested_ports }) in
    let off =
      append_event (port_congestion_off key)
        (record s { congested_ports = discard key s.congested_ports }) in
    let low = is_active && at_most util s.thresholds.port_congest_low_pct in
    if-both IsRerouted (not is_active && at_least util s.thresholds.port_congest_high_pct) on
      (if low then off else s) (λ e. h) (λ e. if-both IsRerouted low off s (λ f. h) (λ f. h))

read_bytes-keep :
    (files : Files) (now dpid : ℕ) (stat : PortStat) (prev : Option (ℕ × ℕ)) (s : CampusController)
    → IsSilent files
    → IsRerouted s
    → Holds IsRerouted (read_bytes files now dpid stat prev s)
unfolding read_bytes set_entry
read_bytes-keep files now dpid stat none s silent h = h
read_bytes-keep files now dpid stat (some prev) s silent h =
    let key : Port = (dpid, stat.port_no) in
    let mbps = rate_since 8 now (stat.rx_bytes + stat.tx_bytes) prev in
    let util = util_pct mbps (port_capacity_mbps dpid stat.port_no) in
    let t = set_entry key mbps util (update_port_congestion key util s) in
    let kept : IsRerouted t = update_port_congestion-keep key util s h in
    let primary : CampusController = record t { last_core_primary_mbps = mbps } in
    let wifi : CampusController = record t { last_core_wifi_mbps = mbps } in
    if-both (Holds IsRerouted) (is_core_port 1 dpid stat.port_no)
      (evaluate_congestion files now mbps primary)
      (if is_core_port 3 dpid stat.port_no then returned wifi else returned t)
      (λ e. evaluate_congestion-keep files now mbps primary silent kept)
      (λ e.
        if-both (Holds IsRerouted) (is_core_port 3 dpid stat.port_no) (returned wifi) (returned t)
          (λ f. kept) (λ f. kept))

read_port-keep :
    (files : Files) (now dpid : ℕ) (stat : PortStat) (s : CampusController)
    → IsSilent files
    → IsRerouted s
    → Holds IsRerouted (read_port files now dpid stat s)
unfolding read_port read_stat sample
read_port-keep files now dpid stat s silent h =
    let key : Port = (dpid, stat.port_no) in
    let t = sample now key stat s in
    let packets = lookup key s.port_samples_pkts in
    let u = check_packets now dpid stat packets t in
    if-both (Holds IsRerouted) (nat_beq stat.port_no ofpp_local) (returned s)
      (read_stat files now dpid stat s) (λ e. h)
      (λ e.
        read_bytes-keep files now dpid stat (lookup key s.port_samples) u silent
          (check_packets-keep now dpid stat packets t h))

pub read_stats-keep :
    (files : Files) (now dpid : ℕ) (body : List PortStat) (s : CampusController)
    → IsSilent files
    → IsRerouted s
    → Holds IsRerouted (read_stats files now dpid body s)
unfolding read_stats
read_stats-keep files now dpid [] s silent h = h
read_stats-keep files now dpid (stat ∷ body) s silent h =
    then_do-Holds IsRerouted (read_port files now dpid stat s)
      (λ t. read_stats files now dpid body t) (read_port-keep files now dpid stat s silent h)
      (λ t k. read_stats-keep files now dpid body t silent k)
