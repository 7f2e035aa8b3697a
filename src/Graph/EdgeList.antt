-- ===== src/Graph/EdgeList.antt =====
-- Graphs as lists of edges, which show that the assumptions on NetworkX can be met. The search for
-- paths is left out: it finds none.
use ai_driven_software_defin.Base.{
  ◌≡◌, ◌≢◌, refl, Bool, true, false, ◌||◌, Option, none, some, List, [], ◌∷◌, keep, member, add,
  not, Comparable, ◌==◌, if◌then◌else◌, arith, Bool-cases, inl, inr, ◌⊎◌,
}
use ai_driven_software_defin.Graph.{GraphOps, same_edge}

module _ {N : Type 0} ⦃e : Comparable N⦄ where
  -- The two ways in which two pairs name one edge.
  same_edge-cases :
      (a b u v : N) → same_edge a b u v ≡ true → ((a ≡ u) × (b ≡ v)) ⊎ ((a ≡ v) × (b ≡ u))
  same_edge-cases a b u v h =
      ground (arith, e.same_iff a u, e.same_iff b v, e.same_iff a v, e.same_iff b u)

  -- One edge is the same as another exactly as its other name is.
  same_edge_transfer :
      (a b u v x y : N) → same_edge a b u v ≡ true → same_edge a b x y ≡ same_edge u v x y
  same_edge_transfer a b u v x y h = elim (same_edge-cases a b u v h) [
    | inl (p, q) ↦ rw (p, q) refl
    | inr (p, q) ↦ rw (p, q) (ground arith)
  ]

  same_edge_transfer_right :
      (a b u v x y : N)
      → same_edge a b x y ≡ true
      → same_edge u v x y ≡ true
      → same_edge u v a b ≡ true
  same_edge_transfer_right a b u v x y h s = elim (same_edge-cases a b x y h) [
    | inl (p, q) ↦ rw (p, q) s
    | inr (p, q) ↦ rw (p, q) (ground arith)
  ]

  -- If an edge has the names of `x`, `y` and not those of `u`, `v`, these are two edges.
  same_edge_back :
      (a b u v x y : N)
      → same_edge a b x y ≡ true
      → same_edge a b u v ≡ false
      → same_edge u v x y ≡ false
  same_edge_back a b u v x y h n = elim (Bool-cases (same_edge u v x y)) [
    | inl s ↦
        let r : same_edge u v a b ≡ true = same_edge_transfer_right a b u v x y h s in
        absurd (
          ground (
            arith,
            e.same_iff a u,
            e.same_iff b v,
            e.same_iff a v,
            e.same_iff b u,
            e.same_iff u a,
            e.same_iff v b,
            e.same_iff v a,
            e.same_iff u b,
          ))
    | inr f ↦ f
  ]

module _ {N D : Type 0} ⦃e : Comparable N⦄ where
  unfoldable pub find_edge : N → N → List (N × N × D) → Option D
  find_edge u v [] = none
  find_edge u v ((x, y, d) ∷ es) = if same_edge x y u v then some d else find_edge u v es

  unfoldable pub drop_edge : N → N → List (N × N × D) → List (N × N × D)
  drop_edge u v [] = []
  drop_edge u v ((x, y, d) ∷ es) =
      let rest = drop_edge u v es in if same_edge x y u v then rest else (x, y, d) ∷ rest

  unfoldable pub other_ends : N → List (N × N × D) → List N
  other_ends u [] = []
  other_ends u ((x, y, d) ∷ es) =
      let rest = other_ends u es in
      if x == u then (if y == u then u ∷ rest else y ∷ rest) else if y == u then x ∷ rest else rest

  unfoldable pub touches : N → List (N × N × D) → Bool
  touches u [] = false
  touches u ((x, y, d) ∷ es) = (x == u) || (y == u) || touches u es

  pub find_edge_comm : (u v : N) (es : List (N × N × D)) → find_edge u v es ≡ find_edge v u es
  unfolding find_edge
  find_edge_comm u v [] = refl
  find_edge_comm u v ((x, y, d) ∷ es) = ground (arith, find_edge_comm u v es)

  pub find_edge-drop_edge :
      (u v x y : N) (es : List (N × N × D))
      → find_edge x y (drop_edge u v es) ≡ (if same_edge u v x y then none else find_edge x y es)
  unfolding find_edge drop_edge
  find_edge-drop_edge u v x y [] = ground arith
  find_edge-drop_edge u v x y ((a, b, d) ∷ es) = elim (Bool-cases (same_edge a b u v)) [
    | inl same ↦
        rw (same, same_edge_transfer a b u v x y same, find_edge-drop_edge u v x y es)
          (ground arith)
    | inr other ↦ rw (other) (elim (Bool-cases (same_edge a b x y)) [
      | inl same ↦ rw same (
          let swap : same_edge u v x y ≡ false = same_edge_back a b u v x y same other in
          rw swap refl)
      | inr n ↦ rw (n, find_edge-drop_edge u v x y es) refl
    ])
  ]

  pub member-other_ends :
      (u v : N) (es : List (N × N × D))
      → find_edge u v es ≢ none
      → member v (other_ends u es) ≡ true
  unfolding find_edge other_ends member
  member-other_ends u v [] h = absurd (h refl)
  member-other_ends u v ((x, y, d) ∷ es) h = ground (
    arith,
    member-other_ends u v es,
    e.same_iff x u,
    e.same_iff y u,
    e.same_iff x v,
    e.same_iff y v,
    e.same_iff u v,
  )

  touches-find_edge :
      (u v : N) (es : List (N × N × D)) → find_edge u v es ≢ none → touches u es ≡ true
  unfolding find_edge touches
  touches-find_edge u v [] h = absurd (h refl)
  touches-find_edge u v ((x, y, d) ∷ es) h = ground (arith, touches-find_edge u v es)

  pub find_edge-nil : (u v : N) → find_edge u v [] ≡ none
  unfolding find_edge
  find_edge-nil u v = refl

  pub find_edge-add :
      (u v x y : N) (d : D) (es : List (N × N × D))
      → find_edge x y ((u, v, d) ∷ drop_edge u v es)
        ≡ (if same_edge u v x y then some d else find_edge x y es)
  unfolding find_edge
  find_edge-add u v x y d es = ground (arith, find_edge-drop_edge u v x y es)

  pub has_node_lem :
      (u v : N) (ns : List N) (es : List (N × N × D))
      → find_edge u v es ≢ none
      → (member u ns || touches u es) ≡ true
  has_node_lem u v ns es h = ground (arith, touches-find_edge u v es h)

  -- NetworkX's operations on a list of nodes and a list of edges.
  abbrev pub edge_list : GraphOps N D
  edge_list = record {
    Graph = List N × List (N × N × D);
    empty = ([], []);
    nodes = λ g. g.0;
    edges = λ g. g.1;
    has_node = λ u g. member u g.0 || touches u g.1;
    add_node = λ u g. (add u g.0, g.1);
    remove_node = λ u g. (keep (λ n. not (n == u)) g.0, keep (λ x. not (x.0 == u || x.1 == u)) g.1);
    add_edge = λ u v d g. (add v (add u g.0), (u, v, d) ∷ drop_edge u v g.1);
    remove_edge = λ u v g. (g.0, drop_edge u v g.1);
    neighbors = λ u g. other_ends u g.1;
    edge_data = λ u v g. find_edge u v g.1;
    dijkstra_path = λ g u v. none;
    simple_paths = λ g u v n. [];
    is_connected = λ g. true;
    edge_data_comm = λ u v g. find_edge_comm u v g.1;
    edge_data-empty = λ u v. find_edge-nil u v;
    edge_data-add_node = λ n u v g. refl;
    edge_data-add_edge = λ u v x y d g. find_edge-add u v x y d g.1;
    edge_data-remove_edge = λ u v x y g. find_edge-drop_edge u v x y g.1;
    neighbors-member = λ u v g. member-other_ends u v g.1;
    has_node-edge = λ u v g h. has_node_lem u v g.0 g.1 h;
  }
