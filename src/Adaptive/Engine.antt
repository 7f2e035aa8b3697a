-- ===== src/Adaptive/Engine.antt =====
-- examples/campus_controller.py: the flows of the policy engine. `Engine/Flows` builds and installs
-- them, `Engine/Clients` and `Engine/Uplink` are the proofs of what they do to packets for the primary
-- server.
pub mod Flows
pub mod Clients
pub mod Uplink
