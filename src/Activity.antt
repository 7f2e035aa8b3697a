-- ===== src/Activity.antt =====
-- tumba_sdn/simulation/pc_activity_manager.py: the activity of every PC and the threads that make its
-- traffic. The HTTP server and the processes that the threads start are left out: what a run of
-- iperf3 measures is an argument of a thread's step.
pub mod Profiles
pub mod Pcs
pub mod Manager
pub mod Threads
pub mod Invariant
pub mod Reachable
pub mod Requests
mod Tests
