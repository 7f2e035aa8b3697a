-- ===== src/Campus.antt =====
-- tumba_sdn/topology/tumba_topo.py: the network that the controllers run on. `Campus/Topology` builds it
-- as a list of hosts and links, `Campus/Agreement` compares it with the tables of the other parts.
pub mod Topology
pub mod Agreement
mod Tests
