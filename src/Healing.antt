-- ===== src/Healing.antt =====
-- tumba_sdn/controller/self_healing.py: failover and recovery, over the graphs of `Graph`, whose
-- nodes here are the names of the switches. Time is in nanoseconds. The event file and the log
-- lines are left out, and so is `_monitor_topology`, which only logs.
pub mod Module
pub mod Failover
pub mod Removal
mod Tests
