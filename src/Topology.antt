-- ===== src/Topology.antt =====
-- tumba_sdn/controller/topology_manager.py: the topology graph and its lock. `Topology/Lock` is
-- the lock, `Topology/Manager` the state and the methods, over the graphs of `Graph`. Clock
-- readings are left out, since nothing reads them; so are the event file and the log lines.
pub mod Lock
pub mod Manager
pub mod Deadlock
pub mod Links
mod Tests
