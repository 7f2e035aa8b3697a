-- ===== src/Monitor/Stats.antt =====
-- tumba_sdn/controller/traffic_monitor.py: `_check_congestion` and `port_stats_reply_handler`.
use ai_driven_software_defin.Base.{
  round_div, ℕ, discard, ◌+◌, ◌*◌, ◌-◌, max, min, Bool, not, ◌&&◌, Option, none, some, List, [],
  ◌∷◌, ◌++◌, lookup, insert, or_else, add, member, last_n, length, all, ltb, leb, pair_eq,
  if◌then◌else◌,
}
use ai_driven_software_defin.Monitor.State.{
  Port, Rate, zero_rate, PortStats, PortStat, congestion_detected, congestion_cleared,
  TrafficMonitor, link_utilization, get_link_capacity,
}
use ai_driven_software_defin.Monitor.Zones.{update_zone_metrics}

-- `util_pct > threshold`, where `util_pct` is `mbps / capacity * 100`, or 0 if the capacity is 0.
unfoldable pub is_high : Rate → ℕ → Bool
is_high r capacity =
    ltb 0 capacity && ltb (link_utilization * (capacity * (1000 * r.ms))) (100 * r.bits)

-- `round(min(100, util_pct), 2)`, in hundredths of a percent.
unfoldable pub util_of : Rate → ℕ → ℕ
unfolding round_div
util_of r capacity =
    if ltb 0 capacity then min 10000 (round_div (10000 * r.bits) (capacity * (1000 * r.ms))) else 0

-- `len(recent) >= 3 and all(recent)`, where `recent` is the last three readings.
unfoldable pub all_recent : List Bool → Bool
unfolding last_n
all_recent history = let recent = last_n 3 history in leb 3 (length recent) && all (λ b. b) recent

-- `self.congestion_history[key].append(high)` on a `deque(maxlen=10)`.
unfoldable pub append_history : Port → Bool → TrafficMonitor → TrafficMonitor
unfolding lookup insert last_n
append_history key high s =
    let history = or_else (lookup key s.congestion_history) [] in
    record s {
      congestion_history = insert key (last_n 10 (history ++ (high ∷ []))) s.congestion_history;
    }

unfoldable pub set_congested : Port → Bool → TrafficMonitor → TrafficMonitor
unfolding member add discard
set_congested key is_congested s =
    let was_congested = member key s.congested_ports in
    if is_congested && not was_congested
    then record s {
      congested_ports = add key s.congested_ports;
      events_file = s.events_file ++ (congestion_detected key ∷ []);
    }
    else if not is_congested && was_congested
    then record s {
      congested_ports = discard key s.congested_ports;
      events_file = s.events_file ++ (congestion_cleared key ∷ []);
    }
    else s

unfoldable pub check_congestion : Port → Rate → ℕ → TrafficMonitor → TrafficMonitor
unfolding is_high append_history set_congested all_recent lookup
check_congestion key r capacity s =
    let s = append_history key (is_high r capacity) s in
    set_congested key (all_recent (or_else (lookup key s.congestion_history) [])) s

-- The rate between two readings of a port. The source takes a difference below 0 as 0, and less
-- than a millisecond as one.
unfoldable pub rate_since : ℕ → PortStat → PortStats → Rate
rate_since now stat prev = record {
  bits = (stat.rx_bytes - prev.rx_bytes + (stat.tx_bytes - prev.tx_bytes)) * 8;
  ms = max 1 (now - prev.ts);
}

unfoldable pub save_stats : Port → ℕ → PortStat → Rate → ℕ × ℕ → TrafficMonitor → TrafficMonitor
unfolding insert
save_stats key now stat r pps s =
    let entry : PortStats = record {
      rx_bytes = stat.rx_bytes;
      tx_bytes = stat.tx_bytes;
      rx_packets = stat.rx_packets;
      tx_packets = stat.tx_packets;
      ts = now;
      mbps = r;
      pps = pps;
    } in
    record s { port_stats = insert key entry s.port_stats }

unfoldable pub set_rates : Port → ℕ → ℕ → TrafficMonitor → TrafficMonitor
unfolding insert
set_rates key mbps util s = record s {
  port_mbps = insert key mbps s.port_mbps;
  port_util = insert key util s.port_util;
}

-- The reading of a port, with what is kept of its last one.
unfoldable pub read_port : ℕ → ℕ → PortStat → Option PortStats → TrafficMonitor → TrafficMonitor
unfolding rate_since set_rates round_div util_of get_link_capacity check_congestion save_stats
read_port now dpid stat none s = save_stats (dpid, stat.port_no) now stat zero_rate (0, 1) s
read_port now dpid stat (some prev) s =
    let key : Port = (dpid, stat.port_no) in
    let r = rate_since now stat prev in
    let capacity = get_link_capacity dpid stat.port_no in
    let s = set_rates key (round_div r.bits r.ms) (util_of r capacity) s in
    let s = check_congestion key r capacity s in
    save_stats key now stat r (stat.rx_packets - prev.rx_packets, r.ms) s

-- A port below `0xfffffff0` is read, another is passed over.
abbrev pub special_ports : ℕ
special_ports = 4294967280

unfoldable pub read_ports : ℕ → ℕ → List PortStat → TrafficMonitor → TrafficMonitor
unfolding read_port lookup
read_ports now dpid [] s = s
read_ports now dpid (stat ∷ body) s = read_ports now dpid body (
    if leb special_ports stat.port_no
    then s
    else read_port now dpid stat (lookup (dpid, stat.port_no) s.port_stats) s)

unfoldable pub port_stats_reply_handler : ℕ → ℕ → List PortStat → TrafficMonitor → TrafficMonitor
unfolding read_ports update_zone_metrics
port_stats_reply_handler now dpid body s = update_zone_metrics (read_ports now dpid body s)
