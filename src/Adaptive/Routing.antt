-- ===== src/Adaptive/Routing.antt =====
-- examples/campus_controller.py: the congestion tests, the reroute policy and the decisions of the
-- learning agent, from `_update_port_congestion` to `_apply_threshold_settings` and from
-- `_evaluate_congestion` to `_install_policy_flows`. `Routing/Policy` installs the policy,
-- `Routing/Settings` sets the thresholds, `Routing/Decisions` takes the agent's decisions;
-- `Routing/Hysteresis`, `Routing/Override` and `Routing/Silence` are proofs.
pub mod Policy
pub mod Settings
pub mod Decisions
pub mod Hysteresis
pub mod Override
pub mod Silence
