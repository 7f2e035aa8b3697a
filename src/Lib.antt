-- ===== src/Lib.antt =====
-- The controllers and services of the campus network of Tumba College, a framework for
-- software-defined networking: Ryu applications that send OpenFlow rules to the switches, and
-- services that decide when examinations are held and which traffic the PCs make.
--
-- The parts, each a module with the modules of its definitions and of what is proved of them:
--   * Policy (tumba_sdn/controller/policy_engine.py): `Policy.Rules` builds the zero-trust, QoS and
--     examination rules, `Policy.Install` installs them; `Policy.Table` and `Policy.Entries` give the
--     resulting flow table, on which `Policy.Decisions` and `Policy.Exam` decide packets.
--   * Security (tumba_sdn/controller/security_module.py): `Security.Zones` has the constants and
--     tables, `Security.Module` the state and the handlers in four modules of its own. `inspect` is
--     the part of `packet_in_handler` behind the flood count, `check_host` that of `check_ddos`
--     behind the thresholds, `cleanup` one round of `_cleanup_loop`.
--   * Topology (tumba_sdn/controller/topology_manager.py): `Topology.Lock` is a monad of computations
--     that can wait for ever, `Topology.Manager` the handlers, which take and release the lock where
--     the source does; `monitor` is one round of `_monitor_loop`.
--   * Healing (tumba_sdn/controller/self_healing.py): `Healing.Module`, over a graph of its own.
--   * Controller (tumba_sdn/controller/main_controller.py): `Controller.Switching` has the rules for
--     a switch and the learning of addresses; `receive` and `forward` are parts of `packet_in`.
--   * Timetable (tumba_sdn/timetable/timetable_engine.py): `Timetable.Database` has the tables and
--     the sample timetable, `Timetable.Engine` the queries, `compute_state` and the requests.
--   * Activity (tumba_sdn/simulation/pc_activity_manager.py): `Activity.Profiles` and `Activity.Pcs`
--     have the tables, `Activity.Manager` the methods, `Activity.Threads` the steps of the threads
--     that make traffic, interleaved with the requests in any order.
--   * Monitor (tumba_sdn/controller/traffic_monitor.py): `Monitor.State` has the tables and the
--     state, `Monitor.Stats` the handling of a statistics reply, `Monitor.Zones` the metrics of the
--     zones and the export; `Monitor.Streak` and `Monitor.Alarm` have the abstract alarm of a port.
--   * Campus (tumba_sdn/topology/tumba_topo.py): `Campus.Topology` builds the hosts and links, and
--     `Campus.Agreement` compares them with the tables of Security and Activity.
--   * Agent (tumba_sdn/ml/dqn_agent.py): `Agent.Loop` has the reward, the routing of an action and
--     the rounds of `run`, which it calls `round`; `Agent.Run` has the loop of `run` on fuel, as much
--     as the rounds that it may make. The networks are torch's and left out.
--   * Adaptive (examples/campus_controller.py): the adaptive controller. `Adaptive.Tables` and
--     `Adaptive.Zones` have the addresses and the security policy, `Adaptive.State` the state that
--     all operations share, `Adaptive.Routing` the congestion tests, the reroute and the agent's
--     decisions, `Adaptive.Attacks` the floods and scans, `Adaptive.Security` the verdict on a
--     packet, `Adaptive.Engine` the flows that a switch gets when it connects, and
--     `Adaptive.Handlers` the handlers, which call all of these. A method that returns early in its
--     middle has a definition for what follows: `unless_blocked` and `check_source` are the later
--     parts of `_check_port_ddos`, `record_contact` that of `_check_port_scan`, `read_action`,
--     `consume` and `integrate` those of `_apply_ml_action_hook`.
-- The parts share the zones' addresses and the packets of the switches, and otherwise only files.
-- `Base` has the shared lists, dictionaries and tests; `OpenFlow` the rules and packets; `Graph` the
-- undirected graphs. Every part's `Tests` runs it on data.
--
-- Parameters: a switch (`OpenFlow.Switch`) chooses an entry of the highest priority that matches, and
-- a graph (`Graph.GraphOps`) has the operations of NetworkX with the documented laws of its edges;
-- which node is at a port is Mininet's (`Campus.Agreement.IsNumbered`), the test of an address's
-- form is an argument of `Adaptive.Zones.normalize_security_policy`;
-- `OpenFlow.Lookup` and `Graph.EdgeList` are instances. What a file holds, what the clock says and
-- what a measurement gives are arguments of the operations that use them.
--
-- Units: time is in milliseconds, in Adaptive in microseconds, in Healing in nanoseconds, packets per
-- second and Mbit/s in thousandths, the measured traffic of a PC in hundredths of Mbit/s, a time of
-- day in minutes. A rate of Monitor or Adaptive is an exact fraction. The thresholds of Adaptive are
-- thousandths, also below 0, and exact where a setting is a multiple of a hundredth. The clock is
-- read once in an operation. Python's integers have no bound, so the natural numbers stand for them;
-- but for `Agent.Run` no operation needs fuel, since every loop goes over a list.
--
-- Not modelled: the port statistics and zone metrics of tumba_sdn/controller/main_controller.py; the
-- state vector and the training of tumba_sdn/ml/dqn_agent.py; starting the network and its HTTP
-- interface in tumba_sdn/topology/tumba_topo.py; the evaluation under tumba_sdn/simulation/; the VLAN
-- automation files, thresholds of a file that are not finite and what is only shown in
-- examples/campus_controller.py; the dashboards, HTTP and log lines, which are input and output; the
-- other prototypes under examples/; and the copy of Mininet, which is another project's.
pub mod Activity
pub mod Adaptive
pub mod Agent
pub mod Base
pub mod Campus
pub mod Controller
pub mod Graph
pub mod Healing
pub mod Monitor
pub mod OpenFlow
pub mod Policy
pub mod Security
pub mod Timetable
pub mod Topology
