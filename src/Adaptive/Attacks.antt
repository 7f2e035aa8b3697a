-- ===== src/Adaptive/Attacks.antt =====
-- examples/campus_controller.py: floods and port scans. `Attacks/Floods` has the floods of the data
-- plane and of the control plane, `Attacks/Scans` the port scans; `Attacks/Flags` and
-- `Attacks/Distinct` are proofs.
pub mod Floods
pub mod Scans
pub mod Flags
pub mod Distinct
pub mod Everywhere
