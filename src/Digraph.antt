-- ===== src/Digraph.antt =====
-- The operations of `nx.DiGraph` that graph_builder.py and the analysis call, as a record of
-- functions on a type of graphs, since networkx is not part of the repository. `DiGraphLaws` holds
-- networkx's documented behaviour. A node's data is the `ResourceNode` under "node", and an edge's
-- the `GraphEdge` under "edge"; `edit_edges` is the assignment to the fields of all these edges.
use blast_radius.Base.{
  ℕ, ◌+◌, ◌≡◌, ◌≢◌, String, Bool, true, false, ◌&&◌, ◌||◌, ◌==◌, string_eq, Option, some, none,
  List, elem, if◌then◌else◌,
}
use blast_radius.Models.{ResourceNode, GraphEdge, Diagnostic}
use blast_radius.Graph.{Graph, is_some, Walk}

abbrev pub change {ℓ} : {A : Type ℓ} → (A → A) → Option A → Option A
change f none = none
change f (some a) = some (f a)

pub record DiGraph (G : Type 0) : Type 0 where
  -- `nx.DiGraph()`, `list(graph)`, `graph.has_node(n)`, `graph.nodes[n]["node"]`
  pub empty : G
  pub node_ids : G → List String
  pub has_node : G → String → Bool
  pub node : G → String → Option ResourceNode
  -- `graph.edges(data=True)`, `graph.edges[a, b]["edge"]`, `graph.number_of_edges()`
  pub edge_list : G → List (String × String × GraphEdge)
  pub edge : G → String → String → Option GraphEdge
  pub edge_count : G → ℕ
  -- `graph.successors(n)`, `nx.descendants(graph, n)`
  pub successors : G → String → List String
  pub descendants : G → String → List String
  -- `graph.add_node(id, node=node)`, `graph.add_edge(a, b, edge=edge)`
  pub add_node : G → String → ResourceNode → G
  pub add_edge : G → String → String → GraphEdge → G
  pub edit_edges : (GraphEdge → GraphEdge) → G → G

-- What the analysis reads of a graph, with the diagnostics that `graph.graph` holds.
abbrev pub view : {G : Type 0} → DiGraph G → G → List Diagnostic → Graph
view x g diagnostics = record {
  nodes = x.node_ids g;
  node = x.node g;
  edges = x.edge_list g;
  edge = x.edge g;
  successors = x.successors g;
  descendants = x.descendants g;
  diagnostics = diagnostics;
}

pub record DiGraphLaws {G : Type 0} (x : DiGraph G) : Type 0 where
  pub has_node-empty : (a : String) → x.has_node x.empty a ≡ false
  pub has_node-add_node :
      (g : G) (a b : String) (n : ResourceNode)
      → x.has_node (x.add_node g a n) b ≡ (a == b || x.has_node g b)
  pub has_node-add_edge :
      (g : G) (a b c : String) (e : GraphEdge)
      → x.has_node (x.add_edge g a b e) c ≡ (a == c || b == c || x.has_node g c)
  pub has_node-edit_edges :
      (f : GraphEdge → GraphEdge) (g : G) (a : String)
      → x.has_node (x.edit_edges f g) a ≡ x.has_node g a
  pub node-empty : (a : String) → x.node x.empty a ≡ none
  pub node-add_node :
      (g : G) (a b : String) (n : ResourceNode)
      → x.node (x.add_node g a n) b ≡ (if a == b then some n else x.node g b)
  pub node-add_edge :
      (g : G) (a b c : String) (e : GraphEdge) → x.node (x.add_edge g a b e) c ≡ x.node g c
  pub node-edit_edges :
      (f : GraphEdge → GraphEdge) (g : G) (a : String) → x.node (x.edit_edges f g) a ≡ x.node g a
  pub edge-empty : (a b : String) → x.edge x.empty a b ≡ none
  pub edge-add_node :
      (g : G) (a b c : String) (n : ResourceNode) → x.edge (x.add_node g a n) b c ≡ x.edge g b c
  pub edge-add_edge :
      (g : G) (a b c d : String) (e : GraphEdge)
      → x.edge (x.add_edge g a b e) c d ≡ (if a == c && b == d then some e else x.edge g c d)
  pub edge-edit_edges :
      (f : GraphEdge → GraphEdge) (g : G) (a b : String)
      → x.edge (x.edit_edges f g) a b ≡ change f (x.edge g a b)
  pub edge_count-empty : x.edge_count x.empty ≡ 0
  pub edge_count-add_node :
      (g : G) (a : String) (n : ResourceNode) → x.edge_count (x.add_node g a n) ≡ x.edge_count g
  pub edge_count-add_edge :
      (g : G) (a b : String) (e : GraphEdge)
      → x.edge_count (x.add_edge g a b e)
        ≡ (if is_some (x.edge g a b) then x.edge_count g else x.edge_count g + 1)
  pub edge_count-edit_edges :
      (f : GraphEdge → GraphEdge) (g : G) → x.edge_count (x.edit_edges f g) ≡ x.edge_count g
  pub elem-node_ids : (g : G) (a : String) → elem a (x.node_ids g) ≡ x.has_node g a
  pub elem-successors : (g : G) (a b : String) → elem b (x.successors g a) ≡ is_some (x.edge g a b)
  pub descendants_irrefl : (g : G) (a : String) → elem a (x.descendants g a) ≡ false
  pub descendants_sound :
      (g : G) (ds : List Diagnostic) (a b : String)
      → elem b (x.descendants g a) ≡ true
      → Walk (view x g ds) a b
  pub descendants_complete :
      (g : G) (ds : List Diagnostic) (a b : String)
      → Walk (view x g ds) a b
      → a ≢ b
      → elem b (x.descendants g a) ≡ true
