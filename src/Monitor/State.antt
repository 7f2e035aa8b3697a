-- ===== src/Monitor/State.antt =====
-- tumba_sdn/controller/traffic_monitor.py: the tables of the module and TrafficMonitor's state.
use ai_driven_software_defin.Base.{
  ℕ, Bool, List, [], ◌∷◌, String, Dict, add, discard, nat_beq, ◌||◌, nat_eq, if◌then◌else◌,
}

-- A (dpid, port_no) pair.
abbrev pub Port : Type 0
Port = ℕ × ℕ

-- A rate of so many bits in so many milliseconds: `mbps` is `bits / (1000 * ms)`.
pub record Rate : Type 0 where
  pub bits : ℕ
  pub ms : ℕ

abbrev pub zero_rate : Rate
zero_rate = record { bits = 0; ms = 1 }

-- What is kept of the last reading of a port.
pub record PortStats : Type 0 where
  pub rx_bytes : ℕ
  pub tx_bytes : ℕ
  pub rx_packets : ℕ
  pub tx_packets : ℕ
  pub ts : ℕ
  pub mbps : Rate
  -- Packets in so many milliseconds.
  pub pps : ℕ × ℕ

-- One port of a statistics reply.
pub record PortStat : Type 0 where
  pub port_no : ℕ
  pub rx_bytes : ℕ
  pub tx_bytes : ℕ
  pub rx_packets : ℕ
  pub tx_packets : ℕ

pub record ZoneMetrics : Type 0 where
  -- In thousandths of a Mbps.
  pub throughput_mbps : ℕ
  -- In hundredths of a percent.
  pub max_utilization_pct : ℕ
  pub port_count : ℕ
  pub congested : Bool

pub data Event : Type 0 where
  congestion_detected : Port → Event
  congestion_cleared : Port → Event

pub record TrafficMonitor : Type 0 where
  pub datapaths : List ℕ
  pub port_stats : Dict Port PortStats
  -- In thousandths of a Mbps.
  pub port_mbps : Dict Port ℕ
  -- In hundredths of a percent.
  pub port_util : Dict Port ℕ
  pub zone_metrics : Dict String ZoneMetrics
  pub congested_ports : List Port
  pub congestion_history : Dict Port (List Bool)
  pub events_file : List Event

abbrev pub new_monitor : TrafficMonitor
new_monitor = record {
  datapaths = [];
  port_stats = [];
  port_mbps = [];
  port_util = [];
  zone_metrics = [];
  congested_ports = [];
  congestion_history = [];
  events_file = [];
}

-- `CONGESTION_THRESHOLDS['link_utilization'] * 100`, a percentage.
abbrev pub link_utilization : ℕ
link_utilization = 70

abbrev pub link_capacities : Dict (ℕ × ℕ) ℕ
link_capacities =
    ((1, 2), 1000)
    ∷ ((1, 3), 1000)
    ∷ ((2, 3), 1000)
    ∷ ((2, 4), 100)
    ∷ ((2, 5), 100)
    ∷ ((3, 6), 100)
    ∷ ((3, 7), 100)
    ∷ []

abbrev pub zone_dpids : Dict String ℕ
zone_dpids = ("staff_lan", 4) ∷ ("server_zone", 5) ∷ ("it_lab", 6) ∷ ("student_wifi", 7) ∷ []

-- The first link of the table that has the switch at one end.
unfoldable pub first_capacity : ℕ → Dict (ℕ × ℕ) ℕ → ℕ
first_capacity dpid [] = 100
first_capacity dpid (((src, dst), cap) ∷ links) =
    if nat_beq dpid src || nat_beq dpid dst then cap else first_capacity dpid links

unfoldable pub get_link_capacity : ℕ → ℕ → ℕ
unfolding first_capacity
get_link_capacity dpid port_no = first_capacity dpid link_capacities

unfoldable pub switch_features_handler : ℕ → TrafficMonitor → TrafficMonitor
unfolding add
switch_features_handler dpid s = record s { datapaths = add dpid s.datapaths }

-- The flag says that the new state of the switch is DEAD_DISPATCHER.
unfoldable pub state_change_handler : ℕ → Bool → TrafficMonitor → TrafficMonitor
unfolding discard
state_change_handler dpid dead s =
    if dead then record s { datapaths = discard dpid s.datapaths } else s
