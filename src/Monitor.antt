-- ===== src/Monitor.antt =====
-- tumba_sdn/controller/traffic_monitor.py: the traffic monitor. `Monitor/State` has its tables and
-- state, `Monitor/Stats` the handling of a port statistics reply, `Monitor/Zones` the metrics of
-- the zones and the exported file; `Monitor/Streak` is the abstract alarm that the congestion test
-- is compared with, `Monitor/Alarm` and `Monitor/Invariant` the proofs about it. Times are in
-- milliseconds, a rate is a fraction of bits by milliseconds; the text of the log is left out.
pub mod State
pub mod Stats
pub mod Zones
pub mod Streak
pub mod Alarm
pub mod Invariant
pub mod Reports
mod Tests
