-- ===== src/Monitor/Zones.antt =====
-- tumba_sdn/controller/traffic_monitor.py: `_update_zone_metrics`, and the part of the payload of
-- `_write_metrics` that is grouped by the switch.
use ai_driven_software_defin.Base.{
  ℕ, ◌+◌, max, List, [], ◌∷◌, String, Dict, lookup, insert, or_else, keys, member, length, keep,
  any, nat_beq, nat_eq, string_eq, pair_eq, map,
}
use ai_driven_software_defin.Monitor.State.{
  Port, PortStats, ZoneMetrics, TrafficMonitor, zone_dpids,
}

unfoldable pub zone_ports : ℕ → TrafficMonitor → List Port
zone_ports zone_dpid s = keep (λ key. nat_beq key.0 zone_dpid) (keys s.port_mbps)

-- `sum(values)` and `max(values, default=0)`.
unfoldable pub sum : List ℕ → ℕ
sum [] = 0
sum (n ∷ ns) = n + sum ns

unfoldable pub largest : List ℕ → ℕ
largest [] = 0
largest (n ∷ ns) = max n (largest ns)

unfoldable pub metrics_of : ℕ → TrafficMonitor → ZoneMetrics
unfolding zone_ports sum largest lookup member
metrics_of zone_dpid s =
    let ports = zone_ports zone_dpid s in
    record {
      throughput_mbps = sum (map (λ k. or_else (lookup k s.port_mbps) 0) ports);
      max_utilization_pct = largest (map (λ k. or_else (lookup k s.port_util) 0) ports);
      port_count = length ports;
      congested = any (λ k. member k s.congested_ports) ports;
    }

unfoldable pub update_zones : Dict String ℕ → TrafficMonitor → TrafficMonitor
unfolding metrics_of insert
update_zones [] s = s
update_zones ((zone_name, zone_dpid) ∷ zones) s =
    update_zones zones
      (record s { zone_metrics = insert zone_name (metrics_of zone_dpid s) s.zone_metrics })

unfoldable pub update_zone_metrics : TrafficMonitor → TrafficMonitor
unfolding update_zones
update_zone_metrics s = update_zones zone_dpids s

pub record PortExport : Type 0 where
  pub mbps : ℕ
  pub util_pct : ℕ
  pub pps : ℕ × ℕ

abbrev pub pps_of : Dict Port PortStats → Port → ℕ × ℕ
unfolding lookup
pps_of stats key = or_else (lookup key (map (λ e. (e.0, e.1.pps)) stats)) (0, 1)

-- `export.setdefault(dpid, {})[port] = value`.
unfoldable pub export_to : {V : Type 0} → Port → V → Dict ℕ (Dict ℕ V) → Dict ℕ (Dict ℕ V)
unfolding insert lookup
export_to key value export =
    insert key.0 (insert key.1 value (or_else (lookup key.0 export) [])) export

-- `switch_port_stats` of the payload. `switch_port_mbps` and `switch_port_util_pct` are its columns.
unfoldable pub export_ports :
    List (Port × ℕ) → TrafficMonitor → Dict ℕ (Dict ℕ PortExport) → Dict ℕ (Dict ℕ PortExport)
unfolding export_to lookup
export_ports [] s export = export
export_ports ((key, mbps) ∷ ports) s export =
    let entry : PortExport = record {
      mbps = mbps;
      util_pct = or_else (lookup key s.port_util) 0;
      pps = pps_of s.port_stats key;
    } in
    export_ports ports s (export_to key entry export)
