-- ===== src/Adaptive.antt =====
-- examples/campus_controller.py: the adaptive controller. `Adaptive/State` has its constants and
-- state, `Adaptive/Routing` the congestion tests, the rerouting and the hook of the learning agent,
-- `Adaptive/Attacks` the floods and port scans, `Adaptive/Security` the security policy,
-- `Adaptive/Engine` the flows of the policy engine and `Adaptive/Handlers` the handlers; the modules
-- below them have the proofs. Times are in microseconds. The log, the metrics file and the VLAN
-- automation are left out.
pub mod Tables
pub mod Zones
pub mod State
pub mod Start
pub mod Routing
pub mod Attacks
pub mod Security
pub mod Engine
pub mod Handlers
mod Tests
