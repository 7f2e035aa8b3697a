-- ===== src/Adaptive/Handlers.antt =====
-- examples/campus_controller.py: the handlers, `packet_in_handler`, `port_stats_reply_handler`,
-- `state_change_handler`, `switch_features_handler` and the turn of `_monitor`. `Handlers/Stats` has
-- the statistics and the hooks of the files, `Handlers/Packets` the packets and the switches;
-- `Handlers/Silent` and
-- `Handlers/Reroute` and `Handlers/Dropped` are proofs.
pub mod Stats
pub mod Packets
pub mod Silent
pub mod Reroute
pub mod Dropped
