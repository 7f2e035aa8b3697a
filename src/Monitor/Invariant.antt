-- ===== src/Monitor/Invariant.antt =====
-- tumba_sdn/controller/traffic_monitor.py: what holds of the monitor in every state that its
-- handlers reach, and what the metrics of a zone say in such a state.
use ai_driven_software_defin.Base.{
  round_div, ℕ, ◌≤◌, ◌-◌, Bool, true, false, Option, none, some, List, [], ◌∷◌, ◌++◌, Dict, String,
  lookup, insert, or_else, member, has_key, last_n, length, leb, ◌≡◌, refl, sym, ap, ◌∙◌, arith,
  Bool-cases, inl, inr, if◌then◌else◌, lookup-insert, has_key-insert, pair_beq_iff, pair_eq,
  string_eq, length-last_n,
}
use ai_driven_software_defin.Monitor.State.{
  Port, Rate, PortStat, PortStats, TrafficMonitor, new_monitor, zone_dpids, get_link_capacity,
  switch_features_handler, state_change_handler, zero_rate,
}
use ai_driven_software_defin.Monitor.Stats.{
  is_high, util_of, all_recent, append_history, check_congestion, set_rates, save_stats, rate_since,
  read_port, read_ports, port_stats_reply_handler, special_ports,
}
use ai_driven_software_defin.Monitor.Zones.{metrics_of, update_zones, update_zone_metrics}
use ai_driven_software_defin.Monitor.Alarm.{
  history_of, check_congestion-history, check_congestion-member, set_congested_frame,
}

-- The part of the state that the invariant is about.
pub record IsValid (s : TrafficMonitor) : Type 0 where
  -- A port is marked as congested exactly if its last three readings were high.
  pub marked : (k : Port) → member k s.congested_ports ≡ all_recent (history_of k s)
  pub short : (k : Port) → length (history_of k s) ≤ 10
  -- A port that has a reading has a rate and a utilisation.
  pub measured : (k : Port) → has_key k s.port_mbps ≡ false → history_of k s ≡ []
  pub both : (k : Port) → has_key k s.port_util ≡ has_key k s.port_mbps
  -- No utilisation is above 100 percent.
  pub bounded : (k : Port) → or_else (lookup k s.port_util) 0 ≤ 10000

util_of-le : (r : Rate) (capacity : ℕ) → util_of r capacity ≤ 10000
unfolding util_of
util_of-le r capacity = ground arith

check_frame :
    (key : Port) (r : Rate) (capacity : ℕ) (s : TrafficMonitor)
    → check_congestion key r capacity s ≡ record s {
      congestion_history = (check_congestion key r capacity s).congestion_history;
      congested_ports = (check_congestion key r capacity s).congested_ports;
      events_file = (check_congestion key r capacity s).events_file;
    }
unfolding check_congestion append_history
check_frame key r capacity s =
    let t = append_history key (is_high r capacity) s in
    let e = set_congested_frame key (all_recent (history_of key t)) t in
    e
    ∙ ap
        (λ h. record s {
          congestion_history = h;
          congested_ports = (check_congestion key r capacity s).congested_ports;
          events_file = (check_congestion key r capacity s).events_file;
        })
        (sym (ap (λ u. u.congestion_history) e))

measure-IsValid :
    (key : Port) (mbps : ℕ) (r : Rate) (capacity : ℕ) (s : TrafficMonitor)
    → IsValid s
    → IsValid (check_congestion key r capacity (set_rates key mbps (util_of r capacity) s))
unfolding set_rates
measure-IsValid key mbps r capacity s v =
    let t = set_rates key mbps (util_of r capacity) s in
    let u = check_congestion key r capacity t in
    let frame = check_frame key r capacity t in
    record {
      marked = λ k. ground (
        arith,
        check_congestion-member key k r capacity t,
        check_congestion-history key k r capacity t,
        pair_beq_iff key k,
        v.marked k,
      );
      short = λ k. ground (
        arith,
        check_congestion-history key k r capacity t,
        length-last_n 10 (history_of key s ++ (is_high r capacity ∷ [])),
        v.short k,
      );
      measured = λ k n. ground (
        arith,
        ap (λ w. has_key k w.port_mbps) frame,
        n,
        has_key-insert key k mbps s.port_mbps,
        check_congestion-history key k r capacity t,
        v.measured k,
      );
      both = λ k. rw frame (
          ground (
            arith,
            has_key-insert key k (util_of r capacity) s.port_util,
            has_key-insert key k mbps s.port_mbps,
            v.both k,
          ));
      bounded = λ k. rw frame (
          ground (
            arith,
            lookup-insert key k (util_of r capacity) s.port_util,
            v.bounded k,
            util_of-le r capacity,
          ));
    }

save_stats-IsValid :
    (key : Port) (now : ℕ) (stat : PortStat) (r : Rate) (pps : ℕ × ℕ) (s : TrafficMonitor)
    → IsValid s
    → IsValid (save_stats key now stat r pps s)
unfolding save_stats
save_stats-IsValid key now stat r pps s v = record {
  marked = v.marked;
  short = v.short;
  measured = v.measured;
  both = v.both;
  bounded = v.bounded;
}

read_port-IsValid :
    (now dpid : ℕ) (stat : PortStat) (prev : Option PortStats) (s : TrafficMonitor)
    → IsValid s
    → IsValid (read_port now dpid stat prev s)
unfolding read_port
read_port-IsValid now dpid stat none s v =
    save_stats-IsValid (dpid, stat.port_no) now stat zero_rate (0, 1) s v
read_port-IsValid now dpid stat (some prev) s v =
    let r = rate_since now stat prev in
    let mbps = round_div r.bits r.ms in
    let capacity = get_link_capacity dpid stat.port_no in
    save_stats-IsValid (dpid, stat.port_no) now stat r (stat.rx_packets - prev.rx_packets, r.ms)
      (check_congestion (dpid, stat.port_no) r capacity
        (set_rates (dpid, stat.port_no) mbps (util_of r capacity) s))
      (measure-IsValid (dpid, stat.port_no) mbps r capacity s v)

pub read_ports-IsValid :
    (now dpid : ℕ) (body : List PortStat) (s : TrafficMonitor)
    → IsValid s
    → IsValid (read_ports now dpid body s)
unfolding read_ports
read_ports-IsValid now dpid [] s v = v
read_ports-IsValid now dpid (stat ∷ body) s v =
    read_ports-IsValid now dpid body
      (if leb special_ports stat.port_no
        then s
        else read_port now dpid stat (lookup (dpid, stat.port_no) s.port_stats) s)
      (elim (Bool-cases (leb special_ports stat.port_no)) [
        | inl e ↦ rw e v
        | inr e ↦
            rw e (read_port-IsValid now dpid stat (lookup (dpid, stat.port_no) s.port_stats) s v)
      ])

update_zones-IsValid :
    (zones : Dict String ℕ) (s : TrafficMonitor) → IsValid s → IsValid (update_zones zones s)
unfolding update_zones
update_zones-IsValid [] s v = v
update_zones-IsValid ((name, dpid) ∷ zones) s v =
    update_zones-IsValid zones
      (record s { zone_metrics = insert name (metrics_of dpid s) s.zone_metrics })
      record {
        marked = v.marked;
        short = v.short;
        measured = v.measured;
        both = v.both;
        bounded = v.bounded;
      }

port_stats_reply_handler-IsValid :
    (now dpid : ℕ) (body : List PortStat) (s : TrafficMonitor)
    → IsValid s
    → IsValid (port_stats_reply_handler now dpid body s)
unfolding port_stats_reply_handler update_zone_metrics
port_stats_reply_handler-IsValid now dpid body s v =
    update_zones-IsValid zone_dpids (read_ports now dpid body s)
      (read_ports-IsValid now dpid body s v)

switch_features_handler-IsValid :
    (dpid : ℕ) (s : TrafficMonitor) → IsValid s → IsValid (switch_features_handler dpid s)
unfolding switch_features_handler
switch_features_handler-IsValid dpid s v = record {
  marked = v.marked;
  short = v.short;
  measured = v.measured;
  both = v.both;
  bounded = v.bounded;
}

state_change_handler-IsValid :
    (dpid : ℕ) (dead : Bool) (s : TrafficMonitor)
    → IsValid s
    → IsValid (state_change_handler dpid dead s)
unfolding state_change_handler
state_change_handler-IsValid dpid false s v = v
state_change_handler-IsValid dpid true s v = record {
  marked = v.marked;
  short = v.short;
  measured = v.measured;
  both = v.both;
  bounded = v.bounded;
}

-- What the controller calls, with any arguments and in any order.
pub data Reach : TrafficMonitor → Type 0 where
  begin : Reach new_monitor
  features : (dpid : ℕ) {s : TrafficMonitor} → Reach s → Reach (switch_features_handler dpid s)
  change :
      (dpid : ℕ) (dead : Bool) {s : TrafficMonitor}
      → Reach s
      → Reach (state_change_handler dpid dead s)
  reply :
      (now dpid : ℕ) (body : List PortStat) {s : TrafficMonitor}
      → Reach s
      → Reach (port_stats_reply_handler now dpid body s)

new_monitor-IsValid : IsValid new_monitor
unfolding member all_recent lookup last_n has_key
new_monitor-IsValid = record {
  marked = λ k. refl;
  short = λ k. omega arith;
  measured = λ k n. refl;
  both = λ k. refl;
  bounded = λ k. omega arith;
}

-- In every state that the handlers reach: a port is marked as congested exactly if its last three
-- readings were high, a history has at most ten readings, a port without a rate has no reading,
-- the same ports have a rate and a utilisation, and no utilisation is above 100 percent.
pub monitor_Reach-IsValid : (s : TrafficMonitor) → Reach s → IsValid s
monitor_Reach-IsValid _ begin = new_monitor-IsValid
monitor_Reach-IsValid _ (features dpid {s} h) =
    switch_features_handler-IsValid dpid s (monitor_Reach-IsValid s h)
monitor_Reach-IsValid _ (change dpid dead {s} h) =
    state_change_handler-IsValid dpid dead s (monitor_Reach-IsValid s h)
monitor_Reach-IsValid _ (reply now dpid body {s} h) =
    port_stats_reply_handler-IsValid now dpid body s (monitor_Reach-IsValid s h)
