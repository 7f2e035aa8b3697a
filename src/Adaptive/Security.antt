-- ===== src/Adaptive/Security.antt =====
-- examples/campus_controller.py: `_enforce_security_policy`. `Security/Verdict` decides on a packet,
-- `Security/Normalized` and `Security/Isolation` are proofs about the policy and its verdicts.
pub mod Verdict
pub mod Merging
pub mod Normalized
pub mod Isolation
