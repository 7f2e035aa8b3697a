-- ===== src/Healing/Module.antt =====
-- tumba_sdn/controller/self_healing.py: SelfHealing's state and methods. The clock reads nanoseconds;
-- the flag `written` says whether the state file can be written.
use ai_driven_software_defin.Base.{
  round_div, ℕ, ◌+◌, ◌-◌, Bool, true, false, Option, none, some, List, [], ◌∷◌, ◌++◌, String, Dict,
  lookup, add, last_n, length, ltb, nat_eq, string_eq, if◌then◌else◌,
}
use ai_driven_software_defin.Graph.{GraphOps}

pub record EdgeInfo : Type 0 where
  pub weight : ℕ
  pub bw : ℕ
  pub primary : Bool

pub data Route : Type 0 where
  primary_path backup_path : Route

pub record FailoverEvent : Type 0 where
  pub failed_link : String × String
  pub dpid : ℕ
  pub port : ℕ
  -- In hundredths of a millisecond, to which the source rounds it.
  pub recovery_time_ms : ℕ
  pub rerouted : ℕ
  -- `'PASS'`, or `'WARN'`.
  pub passed : Bool

pub record RecoveryEvent : Type 0 where
  pub dpid : ℕ
  pub port : ℕ
  pub recovery_time_ms : ℕ
  pub restored : ℕ

pub record HealingState : Type 0 where
  pub failover_active : Bool
  pub current_path : Route
  pub failover_events : List FailoverEvent
  pub recovery_events : List RecoveryEvent

pub record SelfHealing (Graph : Type 0) : Type 0 where
  pub datapaths : List ℕ
  pub failover_active : Bool
  pub failover_events : List FailoverEvent
  pub recovery_events : List RecoveryEvent
  pub current_path : Route
  pub failover_start_ts : ℕ
  pub graph : Graph
  pub state_file : Option HealingState

-- `dpid_to_name`. For another switch the source makes up a name that is no node of the graph.
abbrev pub dpid_to_name : Dict ℕ String
dpid_to_name =
    (1, "cs1") ∷ (2, "ds1") ∷ (3, "ds2") ∷ (4, "as1") ∷ (5, "as2") ∷ (6, "as3") ∷ (7, "as4") ∷ []

abbrev pub access_switches : List String
access_switches = "as1" ∷ "as2" ∷ "as3" ∷ "as4" ∷ []

abbrev pub default_nodes : List String
default_nodes = "cs1" ∷ "ds1" ∷ "ds2" ∷ "as1" ∷ "as2" ∷ "as3" ∷ "as4" ∷ []

abbrev pub uplink : EdgeInfo
uplink = record { weight = 1; bw = 1000; primary = true }

abbrev pub access_link : EdgeInfo
access_link = record { weight = 1; bw = 100; primary = true }

abbrev pub default_edges : List (String × String × EdgeInfo)
default_edges =
    ("cs1", "ds1", uplink)
    ∷ ("cs1", "ds2", uplink)
    ∷ ("ds1", "ds2", record { weight = 2; bw = 1000; primary = false })
    ∷ ("ds1", "as1", access_link)
    ∷ ("ds1", "as2", access_link)
    ∷ ("ds2", "as3", access_link)
    ∷ ("ds2", "as4", access_link)
    ∷ []

module _ (G : GraphOps String EdgeInfo) where
  open G use {Graph}

  abbrev pub State : Type 0
  State = SelfHealing Graph

  unfoldable pub add_nodes : List String → Graph → Graph
  add_nodes [] g = g
  add_nodes (n ∷ ns) g = add_nodes ns (G.add_node n g)

  unfoldable pub add_edges : List (String × String × EdgeInfo) → Graph → Graph
  add_edges [] g = g
  add_edges ((u, v, d) ∷ es) g = add_edges es (G.add_edge u v d g)

  -- `_build_default_graph`, which clears the graph first.
  unfoldable pub default_graph : Graph
  default_graph = add_edges default_edges (add_nodes default_nodes G.empty)

  unfoldable pub init : State
  init = record {
    datapaths = [];
    failover_active = false;
    failover_events = [];
    recovery_events = [];
    current_path = primary_path;
    failover_start_ts = 0;
    graph = default_graph;
    state_file = none;
  }

  unfoldable pub switch_features_handler : ℕ → State → State
  switch_features_handler dpid s = record s { datapaths = add dpid s.datapaths }

  unfoldable pub get_self_healing_state : State → HealingState
  get_self_healing_state s = record {
    failover_active = s.failover_active;
    current_path = s.current_path;
    failover_events = last_n 10 s.failover_events;
    recovery_events = last_n 10 s.recovery_events;
  }

  -- A write that fails leaves the file as it was.
  unfoldable pub write_state : Bool → State → State
  unfolding get_self_healing_state
  write_state false s = s
  write_state true s = record s { state_file = some (get_self_healing_state s) }

  -- `round(recovery_time_ms, 2)`.
  unfoldable pub rounded : ℕ → ℕ
  unfolding round_div
  rounded elapsed = round_div elapsed 10000

  abbrev pub is_edge : Option EdgeInfo → Bool
  is_edge none = false
  is_edge (some d) = true

  -- The loop that looks for the failed link: the first neighbour with an edge.
  unfoldable pub first_link : String → List String → Graph → Option String
  first_link sw [] g = none
  first_link sw (n ∷ ns) g = if is_edge (G.edge_data sw n g) then some n else first_link sw ns g

  abbrev pub neighbors_of : String → Graph → List String
  neighbors_of sw g = if G.has_node sw g then G.neighbors sw g else []

  abbrev pub link_to : String → Option String → Option (String × String)
  link_to sw none = none
  link_to sw (some n) = some (sw, n)

  -- The switch and the neighbour of the link that is taken for the failed one.
  unfoldable pub failed_link : Option String → Graph → Option (String × String)
  failed_link none g = none
  failed_link (some sw) g = link_to sw (first_link sw (neighbors_of sw g) g)

  -- A path counts if it has more than one node.
  abbrev pub is_route : Option (List String) → Bool
  is_route none = false
  is_route (some path) = ltb 1 (length path)

  -- `_compute_and_install_backup_routes`: the access switches that still reach the core.
  unfoldable pub count_routes : List String → Graph → ℕ
  count_routes [] g = 0
  count_routes (sw ∷ sws) g =
      let rest = count_routes sws g in
      if is_route (G.dijkstra_path g sw "cs1") then rest + 1 else rest

  -- The state after a failover that took so many nanoseconds, before it is written.
  abbrev pub failed_over : ℕ → ℕ → ℕ → String → String → State → State
  failed_over elapsed dpid port_no sw n s =
      let g = G.remove_edge sw n s.graph in
      let event : FailoverEvent = record {
        failed_link = (sw, n);
        dpid = dpid;
        port = port_no;
        recovery_time_ms = rounded elapsed;
        rerouted = count_routes access_switches g;
        passed = ltb elapsed 1_000_000_000;
      } in
      record s {
        graph = g;
        failover_active = true;
        current_path = backup_path;
        failover_events = s.failover_events ++ (event ∷ []);
      }

  -- `_handle_link_failure` once the link is found.
  unfoldable pub fail_over : Bool → ℕ → ℕ → ℕ → ℕ → Option (String × String) → State → State
  unfolding write_state
  fail_over written start stop dpid port_no none s = s
  fail_over written start stop dpid port_no (some (sw, n)) s =
      write_state written (failed_over (stop - start) dpid port_no sw n s)

  -- `_handle_link_failure`; the clock reads `start` first and `stop` after the rerouting.
  unfoldable pub handle_link_failure : Bool → ℕ → ℕ → ℕ → ℕ → State → State
  unfolding fail_over
  handle_link_failure written start stop dpid port_no s =
      let s1 = record s { failover_start_ts = start } in
      fail_over written start stop dpid port_no (failed_link (lookup dpid dpid_to_name) s1.graph) s1

  -- The state after a recovery, before it is written; `_restore_primary_routes` builds the default
  -- graph once more.
  abbrev pub recovered : ℕ → ℕ → ℕ → State → State
  recovered elapsed dpid port_no s =
      let event : RecoveryEvent = record {
        dpid = dpid;
        port = port_no;
        recovery_time_ms = rounded elapsed;
        restored = 4;
      } in
      record s {
        graph = default_graph;
        failover_active = false;
        current_path = primary_path;
        recovery_events = s.recovery_events ++ (event ∷ []);
      }

  unfoldable pub handle_link_recovery : Bool → ℕ → ℕ → ℕ → ℕ → State → State
  unfolding write_state
  handle_link_recovery written start stop dpid port_no s =
      if s.failover_active then write_state written (recovered (stop - start) dpid port_no s) else s

  unfoldable pub port_status_handler : Bool → ℕ → ℕ → ℕ → ℕ → Bool → State → State
  port_status_handler written start stop dpid port_no is_up s =
      if is_up
      then handle_link_recovery written start stop dpid port_no s
      else handle_link_failure written start stop dpid port_no s
