-- ===== src/Topology/Manager.antt =====
-- tumba_sdn/controller/topology_manager.py: TopologyManager's state and methods.
use ai_driven_software_defin.Base.{
  ℕ, zero, suc, Bool, true, false, not, Option, none, some, List, [], ◌∷◌, ◌++◌, Dict, lookup,
  insert, add, member, or_else, last_n, length, ltb, keep, nat_eq, pair_eq, ◌==◌, if◌then◌else◌,
}
use ai_driven_software_defin.OpenFlow.{FlowMod, any_match, flow_mod, output, controller}
use ai_driven_software_defin.Graph.{GraphOps}
use ai_driven_software_defin.Topology.Lock.{done, blocked, M, ◌>>=◌, ◌>>◌, pure}

-- The attributes of an edge, and the entry of `links`.
pub record LinkInfo : Type 0 where
  pub src_port : ℕ
  pub dst_port : ℕ
  pub weight : ℕ

pub data Reason : Type 0 where
  add_reason delete_reason modify_reason unknown_reason : Reason

pub record PortStatus : Type 0 where
  pub is_up : Bool
  pub reason : Reason

pub data TopologyEvent : Type 0 where
  switch_connected : ℕ → TopologyEvent
  switch_disconnected : ℕ → TopologyEvent
  link_failure : ℕ → ℕ → ℕ → TopologyEvent
  port_up : ℕ → ℕ → TopologyEvent

pub record Summary : Type 0 where
  pub switches : List ℕ
  pub links : List (ℕ × ℕ × LinkInfo)
  pub switch_count : ℕ
  pub link_count : ℕ
  pub connected : Bool

pub record TopologyManager (Graph : Type 0) : Type 0 where
  pub graph : Graph
  pub datapaths : List ℕ
  pub links : Dict (ℕ × ℕ) LinkInfo
  pub switch_ports : Dict ℕ (Dict ℕ PortStatus)
  pub link_events : List TopologyEvent
  -- `topology_lock.locked()`.
  pub locked : Bool
  pub sent : List (ℕ × FlowMod)
  -- The content of the state file, with the events in it.
  pub state_file : Option (Summary × List TopologyEvent)

pub data Dispatcher : Type 0 where
  main_dispatcher dead_dispatcher : Dispatcher

module _ (G : GraphOps ℕ LinkInfo) where
  open G use {Graph}

  abbrev pub State : Type 0
  State = TopologyManager Graph

  unfoldable pub init : State
  init = record {
    graph = G.empty;
    datapaths = [];
    links = [];
    switch_ports = [];
    link_events = [];
    locked = false;
    sent = [];
    state_file = none;
  }

  abbrev pub modify : (State → State) → M State (Unit {0})
  modify f s = done tt (f s)

  -- `topology_lock.acquire()`.
  unfoldable pub acquire : M State (Unit {0})
  acquire s = if s.locked then blocked s else done tt (record s { locked = true })

  unfoldable pub release : M State (Unit {0})
  release s = done tt (record s { locked = false })

  -- `with self.topology_lock:`.
  unfoldable pub with_lock : {A : Type 0} → M State A → M State A
  unfolding acquire release
  with_lock body = do acquire; a ← body; release; pure a

  -- `_publish_event`: the last 500 events are kept.
  unfoldable pub publish_event : TopologyEvent → M State (Unit {0})
  publish_event event =
      modify (λ s. record s { link_events = last_n 500 (s.link_events ++ (event ∷ [])) })

  unfoldable pub summary_of : State → Summary
  summary_of s =
      let nodes = G.nodes s.graph in
      let edges = G.edges s.graph in
      record {
        switches = nodes;
        links = edges;
        switch_count = length nodes;
        link_count = length edges;
        connected = if ltb 1 (length nodes) then G.is_connected s.graph else true;
      }

  -- `get_topology_summary`, which takes the lock itself.
  unfoldable pub get_topology_summary : M State Summary
  unfolding with_lock
  get_topology_summary = with_lock (λ s. done (summary_of s) s)

  -- `_write_state`.
  unfoldable pub write_state : M State (Unit {0})
  unfolding get_topology_summary
  write_state = do
    summary ← get_topology_summary
    modify (λ s. record s { state_file = some (summary, last_n 50 s.link_events) })

  abbrev pub table_miss : FlowMod
  table_miss = flow_mod 0 any_match (output controller ∷ []) 0

  unfoldable pub switch_features_handler : ℕ → M State (Unit {0})
  unfolding with_lock publish_event write_state
  switch_features_handler dpid = do
    modify (λ s. record s { datapaths = add dpid s.datapaths })
    with_lock (do
      modify (λ s. record s { graph = G.add_node dpid s.graph })
      publish_event (switch_connected dpid)
      write_state)
    modify (λ s. record s { sent = s.sent ++ ((dpid, table_miss) ∷ []) })

  -- The branch of `state_change_handler` for a switch that was known.
  unfoldable pub disconnect : ℕ → M State (Unit {0})
  unfolding with_lock publish_event write_state
  disconnect dpid = do
    modify (λ s. record s { datapaths = keep (λ d. not (d == dpid)) s.datapaths })
    with_lock (do
      modify (λ s. record s {
        graph = if G.has_node dpid s.graph then G.remove_node dpid s.graph else s.graph;
      })
      publish_event (switch_disconnected dpid)
      write_state)

  unfoldable pub state_change_handler : ℕ → Dispatcher → M State (Unit {0})
  unfolding disconnect
  state_change_handler dpid main_dispatcher s =
      done tt (record s { datapaths = add dpid s.datapaths })
  state_change_handler dpid dead_dispatcher s =
      if member dpid s.datapaths then disconnect dpid s else done tt s

  -- The edge has this port as its `src_port`.
  abbrev pub has_src_port : Option LinkInfo → ℕ → Bool
  has_src_port none port_no = false
  has_src_port (some link) port_no = link.src_port == port_no

  -- The loop of `port_status_handler` over the neighbours that it listed before.
  unfoldable pub remove_links : ℕ → ℕ → List ℕ → State → State
  unfolding publish_event
  remove_links dpid port_no [] s = s
  remove_links dpid port_no (neighbor ∷ neighbors) s = remove_links dpid port_no neighbors (
      if has_src_port (G.edge_data dpid neighbor s.graph) port_no
      then record s {
        graph = G.remove_edge dpid neighbor s.graph;
        link_events = last_n 500 (s.link_events ++ (link_failure dpid port_no neighbor ∷ []));
      }
      else s)

  unfoldable pub set_port : ℕ → ℕ → PortStatus → State → State
  set_port dpid port_no status s = record s {
    switch_ports =
        insert dpid (insert port_no status (or_else (lookup dpid s.switch_ports) []))
          s.switch_ports;
  }

  unfoldable pub port_status_handler : ℕ → ℕ → Reason → Bool → M State (Unit {0})
  unfolding with_lock publish_event write_state
  port_status_handler dpid port_no reason is_up = with_lock (do
    modify (set_port dpid port_no (record { is_up = is_up; reason = reason }))
    (if is_up
        then publish_event (port_up dpid port_no)
        else modify (λ s.
          remove_links dpid port_no
            (if G.has_node dpid s.graph then G.neighbors dpid s.graph else []) s))
    write_state)

  unfoldable pub get_shortest_path : ℕ → ℕ → M State (Option (List ℕ))
  unfolding with_lock
  get_shortest_path src dst = with_lock (λ s. done (G.dijkstra_path s.graph src dst) s)

  abbrev pub take_paths : ℕ → List (List ℕ) → List (List ℕ)
  take_paths zero paths = []
  take_paths (suc n) [] = []
  take_paths (suc n) (path ∷ paths) = path ∷ take_paths n paths

  unfoldable pub get_all_paths : ℕ → ℕ → ℕ → M State (List (List ℕ))
  unfolding with_lock
  get_all_paths src dst max_paths =
      with_lock (λ s. done (take_paths max_paths (G.simple_paths s.graph src dst 6)) s)

  abbrev pub has_edge : Option LinkInfo → Bool
  has_edge none = false
  has_edge (some link) = true

  unfoldable pub is_link_up : ℕ → ℕ → M State Bool
  unfolding with_lock
  is_link_up src dst = with_lock (λ s. done (has_edge (G.edge_data src dst s.graph)) s)

  unfoldable pub add_link : ℕ → ℕ → ℕ → ℕ → ℕ → M State (Unit {0})
  unfolding with_lock
  add_link src src_port dst dst_port weight =
      let link : LinkInfo = record { src_port = src_port; dst_port = dst_port; weight = weight } in
      with_lock (
        modify (λ s. record s {
          graph = G.add_edge src dst link s.graph;
          links = insert (src, dst) link s.links;
        }))

  -- One round of `_monitor_loop`.
  unfoldable pub monitor : M State (Unit {0})
  unfolding with_lock write_state
  monitor = with_lock write_state
