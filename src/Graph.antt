-- ===== src/Graph.antt =====
-- The undirected graphs of NetworkX as tumba_sdn/controller/topology_manager.py and
-- tumba_sdn/controller/self_healing.py use them. NetworkX is not in the repository: `GraphOps`
-- takes its operations as parameters, with what its documentation says of edges and neighbours.
pub mod EdgeList
use ai_driven_software_defin.Base.{
  ℕ, ◌≡◌, ◌≢◌, member, true, Bool, ◌&&◌, ◌||◌, Option, none, some, List, [], ◌∷◌, String,
  Comparable, ◌==◌, if◌then◌else◌,
}

-- Two pairs of nodes name one undirected edge.
abbrev pub same_edge : {N : Type 0} ⦃e : Comparable N⦄ → N → N → N → N → Bool
same_edge u v x y = (u == x && v == y) || (u == y && v == x)

-- Graphs over nodes `N` whose edges carry `D`.
pub record GraphOps (N D : Type 0) ⦃e : Comparable N⦄ : Type 1 where
  pub Graph : Type 0
  pub empty : Graph
  pub nodes : Graph → List N
  -- `list(g.edges(data=True))`.
  pub edges : Graph → List (N × N × D)
  pub has_node : N → Graph → Bool
  pub add_node : N → Graph → Graph
  pub remove_node : N → Graph → Graph
  pub add_edge : N → N → D → Graph → Graph
  pub remove_edge : N → N → Graph → Graph
  pub neighbors : N → Graph → List N
  -- `g.get_edge_data(u, v)`.
  pub edge_data : N → N → Graph → Option D
  -- `nx.dijkstra_path(g, u, v, weight='weight')`, and nothing where it raises NetworkXNoPath or
  -- NodeNotFound.
  pub dijkstra_path : Graph → N → N → Option (List N)
  -- `nx.all_simple_paths(g, u, v, cutoff)`.
  pub simple_paths : Graph → N → N → ℕ → List (List N)
  pub is_connected : Graph → Bool
  pub edge_data_comm : (u v : N) (g : Graph) → edge_data u v g ≡ edge_data v u g
  pub edge_data-empty : (u v : N) → edge_data u v empty ≡ none
  pub edge_data-add_node : (n u v : N) (g : Graph) → edge_data u v (add_node n g) ≡ edge_data u v g
  pub edge_data-add_edge :
      (u v x y : N) (d : D) (g : Graph)
      → edge_data x y (add_edge u v d g) ≡ (if same_edge u v x y then some d else edge_data x y g)
  pub edge_data-remove_edge :
      (u v x y : N) (g : Graph)
      → edge_data x y (remove_edge u v g) ≡ (if same_edge u v x y then none else edge_data x y g)
  pub neighbors-member :
      (u v : N) (g : Graph) → edge_data u v g ≢ none → member v (neighbors u g) ≡ true
  pub has_node-edge : (u v : N) (g : Graph) → edge_data u v g ≢ none → has_node u g ≡ true
