-- ===== src/Graph.antt =====
-- What the analysis reads of the `nx.DiGraph` that graph_builder.py fills: a record of functions,
-- since networkx is not part of the repository. `IsDigraph` holds what is relied on: networkx's
-- documented behaviour, and that `build_graph` stores a `ResourceNode` on every node.
use blast_radius.Base.{
  String, Bool, true, false, ◌≡◌, ◌≢◌, List, Option, none, some, elem, string_eq, Result, of_option,
  keep,
}
use blast_radius.Models.{ResourceNode, GraphEdge, Diagnostic, NodeType, node_type_eq}

-- `InputLimitError`, `LookupError` (`KeyError` or `IndexError`), and the fuel of a `while` loop.
pub data Error : Type 0 where
  input_limit lookup_error out_of_fuel : Error

pub record Graph : Type 0 where
  -- `list(graph)`, `graph.nodes[n]["node"]`
  pub nodes : List String
  pub node : String → Option ResourceNode
  -- the triples of `graph.edges(data=True)`, `graph.edges[a, b]["edge"]`
  pub edges : List (String × String × GraphEdge)
  pub edge : String → String → Option GraphEdge
  pub successors : String → List String
  -- `nx.descendants`
  pub descendants : String → List String
  -- `graph.graph["diagnostics"]`
  pub diagnostics : List Diagnostic

abbrev pub is_some {ℓ} : {A : Type ℓ} → Option A → Bool
is_some none = false
is_some (some a) = true

abbrev pub has_edge : Graph → String → String → Bool
has_edge g a b = is_some (g.edge a b)

-- `node_of`, `edge_of`
unfoldable pub node_of : Graph → String → Result Error ResourceNode
node_of g n = of_option lookup_error (g.node n)

unfoldable pub edge_of : Graph → String → String → Result Error GraphEdge
edge_of g a b = of_option lookup_error (g.edge a b)

-- `nodes_of_type`
abbrev pub typed : List NodeType → Option ResourceNode → Bool
typed types none = false
typed types (some n) = elem n.type types

unfoldable pub nodes_of_type : Graph → List NodeType → List String
nodes_of_type g types = keep (λ n. typed types (g.node n)) g.nodes

-- A walk along the edges.
pub data Walk (g : Graph) (a : String) : String → Type 0 where
  here : Walk g a a
  step : {b c : String} → Walk g a b → has_edge g b c ≡ true → Walk g a c

pub record IsDigraph (g : Graph) : Type 0 where
  pub node_stored : (n : String) → elem n g.nodes ≡ true → is_some (g.node n) ≡ true
  pub successors_lem : (a b : String) → elem b (g.successors a) ≡ has_edge g a b
  pub target_mem : (a b : String) → has_edge g a b ≡ true → elem b g.nodes ≡ true
  pub descendants_irrefl : (a : String) → elem a (g.descendants a) ≡ false
  pub descendants_sound : (a b : String) → elem b (g.descendants a) ≡ true → Walk g a b
  pub descendants_complete : (a b : String) → Walk g a b → a ≢ b → elem b (g.descendants a) ≡ true
