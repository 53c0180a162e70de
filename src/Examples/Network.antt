-- ===== src/Examples/Network.antt =====
-- A graph that keeps its transitive closure as it grows: an instance of the operations of networkx
-- under which their laws hold.
use blast_radius.Base.{
  ℕ, ◌+◌, ◌≡◌, ◌≢◌, refl, sym, ◌∙◌, subst, String, Bool, true, false, not, ◌&&◌, ◌||◌, ◌==◌, ==_iff,
  ==_refl, string_eq, Option, some, none, Bool-cases, inl, inr, ◌⊎◌, List, [], ◌∷◌, elem, elem-keep,
  keep, arith, if◌then◌else◌,
}
use blast_radius.Models.{ResourceNode, GraphEdge, Diagnostic}
use blast_radius.Graph.{Graph, is_some, Walk, here, step, has_edge}
use blast_radius.Digraph.{DiGraph, DiGraphLaws, view, change}

abbrev Edges : Type 0
Edges = String → String → Option GraphEdge

abbrev joins : Edges → Graph
joins edge = record {
  nodes = [];
  node = λ n. none;
  edges = [];
  edge = edge;
  successors = λ a. [];
  descendants = λ a. [];
  diagnostics = [];
}

pub Walk-map :
    (g h : Graph) (a b : String)
    → ((c d : String) → has_edge g c d ≡ true → has_edge h c d ≡ true)
    → Walk g a b
    → Walk h a b
Walk-map g h a b f here = here
Walk-map g h a c f (step {b} w e) = step (Walk-map g h a b f w) (f b c e)

Walk-append : (g : Graph) (a b : String) {c : String} → Walk g a b → Walk g b c → Walk g a c
Walk-append g a b w here = w
Walk-append g a b w (step {c} v e) = step (Walk-append g a b w v) e

pub record Network : Type 0 where
  pub ids : List String
  pub node : String → Option ResourceNode
  pub edge : Edges
  pub count : ℕ
  pub reach : String → String → Bool
  pub closed :
      (a p c : String) → (a == p || reach a p) ≡ true → is_some (edge p c) ≡ true → reach a c ≡ true
  pub known : (a c : String) → reach a c ≡ true → elem c ids ≡ true
  pub ends : (a c : String) → is_some (edge a c) ≡ true → elem c ids ≡ true
  pub sound : (a c : String) → reach a c ≡ true → Walk (joins edge) a c

pub absent : {A : Type 0} → false ≡ true → A
absent h = absurd (ground arith)

abbrev pub nothing : Network
nothing = record {
  ids = [];
  node = λ a. none;
  edge = λ a b. none;
  count = 0;
  reach = λ a b. false;
  closed = λ a p c h k. k;
  known = λ a c h. h;
  ends = λ a c h. h;
  sound = λ a c h. absent h;
}

pub elem-next : (a b : String) (l : List String) → elem b l ≡ true → elem b (a ∷ l) ≡ true
elem-next a b l h = ground arith

abbrev with_node : Network → String → ResourceNode → Network
with_node g a n = record {
  ids = a ∷ g.ids;
  node = λ b. if a == b then some n else g.node b;
  edge = g.edge;
  count = g.count;
  reach = g.reach;
  closed = g.closed;
  known = λ b c h. elem-next a c g.ids (g.known b c h);
  ends = λ b c h. elem-next a c g.ids (g.ends b c h);
  sound = g.sound;
}

abbrev edge_put : Edges → String → String → GraphEdge → Edges
edge_put edge u v e c d = if u == c && v == d then some e else edge c d

abbrev reach_put : (String → String → Bool) → String → String → String → String → Bool
reach_put reach u v a c = reach a c || (a == u || reach a u) && (c == v || reach v c)

pub closed_put :
    (g : Network) (u v : String) (e : GraphEdge) (a p c : String)
    → (a == p || reach_put g.reach u v a p) ≡ true
    → is_some (edge_put g.edge u v e p c) ≡ true
    → reach_put g.reach u v a c ≡ true
closed_put g u v e a p c h k = elim (Bool-cases (u == p && v == c)) [
  | inl new ↦
      ground (arith, ==_iff u p, ==_iff v c, ==_iff a p, ==_iff a u, ==_iff c v, g.closed a p c)
  | inr old ↦ ground (arith, g.closed a p c, g.closed v p c, ==_iff p v, ==_iff v p, ==_iff a p)
]

put_keeps :
    (g : Network) (u v : String) (e : GraphEdge) (c d : String)
    → has_edge (joins g.edge) c d ≡ true
    → has_edge (joins (edge_put g.edge u v e)) c d ≡ true
put_keeps g u v e c d h = elim (Bool-cases (u == c && v == d)) [
  | inl new ↦ rw new refl
  | inr old ↦ rw old h
]

==_to : (a b : String) → (a == b) ≡ true → a ≡ b
==_to a b h = ground (arith, ==_iff a b)

or_parts :
    (p q r s : Bool)
    → ((p || q) && (r || s)) ≡ true
    → ((p ≡ true) ⊎ (q ≡ true)) × ((r ≡ true) ⊎ (s ≡ true))
or_parts p q r s h = ground arith

second_part : (p q : Bool) → p ≡ false → (p || q) ≡ true → q ≡ true
second_part p q e h = ground arith

put_has :
    (g : Network) (u v : String) (e : GraphEdge)
    → has_edge (joins (edge_put g.edge u v e)) u v ≡ true
put_has g u v e = ground (arith, ==_refl u, ==_refl v)

pub sound_put :
    (g : Network) (u v : String) (e : GraphEdge) (a c : String)
    → reach_put g.reach u v a c ≡ true
    → Walk (joins (edge_put g.edge u v e)) a c
sound_put g u v e a c h =
    let t = joins (edge_put g.edge u v e) in
    let lift = λ (p q : String) (k : g.reach p q ≡ true).
      Walk-map (joins g.edge) t p q (put_keeps g u v e) (g.sound p q k) in
    elim (Bool-cases (g.reach a c)) [
      | inl old ↦ lift a c old
      | inr new ↦
          let (l, r) = or_parts (a == u) (g.reach a u) (c == v) (g.reach v c) (
            second_part (g.reach a c) ((a == u || g.reach a u) && (c == v || g.reach v c)) new h) in
          let w : Walk t a u = elim l [
            | inl k ↦ subst (λ z. Walk t a z) (==_to a u k) here
            | inr k ↦ lift a u k
          ] in
          Walk-append t a v (step w (put_has g u v e)) (elim r [
            | inl k ↦ subst (λ z. Walk t v z) (sym (==_to c v k)) here
            | inr k ↦ lift v c k
          ])
    ]

pub known_put :
    (g : Network) (u v a c : String)
    → reach_put g.reach u v a c ≡ true
    → elem c (u ∷ v ∷ g.ids) ≡ true
known_put g u v a c h = ground (arith, g.known a c, g.known v c, ==_iff c v, ==_iff v c)

pub ends_put :
    (g : Network) (u v : String) (e : GraphEdge) (a c : String)
    → is_some (edge_put g.edge u v e a c) ≡ true
    → elem c (u ∷ v ∷ g.ids) ≡ true
ends_put g u v e a c h = ground (arith, g.ends a c, ==_iff v c, ==_iff c v)

abbrev with_edge : Network → String → String → GraphEdge → Network
with_edge g u v e = record {
  ids = u ∷ v ∷ g.ids;
  node = g.node;
  edge = edge_put g.edge u v e;
  count = if is_some (g.edge u v) then g.count else g.count + 1;
  reach = reach_put g.reach u v;
  closed = closed_put g u v e;
  known = known_put g u v;
  ends = ends_put g u v e;
  sound = sound_put g u v e;
}

pub is_some-change :
    (f : GraphEdge → GraphEdge) (e : Option GraphEdge) → is_some (change f e) ≡ is_some e
is_some-change f none = refl
is_some-change f (some e) = refl

abbrev edit : (GraphEdge → GraphEdge) → Network → Network
edit f g = record {
  ids = g.ids;
  node = g.node;
  edge = λ a b. change f (g.edge a b);
  count = g.count;
  reach = g.reach;
  closed = λ a p c h k. g.closed a p c h (sym (is_some-change f (g.edge p c)) ∙ k);
  known = g.known;
  ends = λ a c h. g.ends a c (sym (is_some-change f (g.edge a c)) ∙ h);
  sound = λ a c h.
      Walk-map (joins g.edge) (joins (λ a b. change f (g.edge a b))) a c
        (λ p q k. is_some-change f (g.edge p q) ∙ k) (g.sound a c h);
}

abbrev pub network : DiGraph Network
network = record {
  empty = nothing;
  node_ids = λ g. g.ids;
  has_node = λ g a. elem a g.ids;
  node = λ g. g.node;
  edge_list = λ g. [];
  edge = λ g. g.edge;
  edge_count = λ g. g.count;
  successors = λ g a. keep (λ b. is_some (g.edge a b)) g.ids;
  descendants = λ g a. keep (λ b. not (a == b) && g.reach a b) g.ids;
  add_node = with_node;
  add_edge = with_edge;
  edit_edges = edit;
}

elem_first : (a b : String) (l : List String) → elem b (a ∷ l) ≡ (a == b || elem b l)
elem_first a b l = ground (arith, ==_iff a b, ==_iff b a)

elem_two : (a b c : String) (l : List String) → elem c (a ∷ b ∷ l) ≡ (a == c || b == c || elem c l)
elem_two a b c l = ground (arith, elem_first a c (b ∷ l), elem_first b c l)

and_known : (p q : Bool) → (p ≡ true → q ≡ true) → (p && q) ≡ p
and_known p q h = ground (arith, h)

successors_elem :
    (g : Network) (a b : String)
    → elem b (keep (λ c. is_some (g.edge a c)) g.ids) ≡ is_some (g.edge a b)
successors_elem g a b =
    elem-keep b (λ c. is_some (g.edge a c)) g.ids
    ∙ and_known (is_some (g.edge a b)) (elem b g.ids) (g.ends a b)

descendants_elem :
    (g : Network) (a b : String)
    → elem b (keep (λ c. not (a == c) && g.reach a c) g.ids) ≡ (not (a == b) && g.reach a b)
descendants_elem g a b =
    elem-keep b (λ c. not (a == c) && g.reach a c) g.ids
    ∙ and_known (not (a == b) && g.reach a b) (elem b g.ids) (λ h. g.known a b (ground arith))

Walk-to_joins :
    (g : Network) (ds : List Diagnostic) (a : String) {b : String}
    → Walk (view network g ds) a b
    → (a == b || g.reach a b) ≡ true
Walk-to_joins g ds a here = ground (arith, ==_refl a)
Walk-to_joins g ds a (step {b} {c} w k) = ground (arith, g.closed a b c (Walk-to_joins g ds a w) k)

second_true : (p q : Bool) → (p && q) ≡ true → q ≡ true
second_true p q h = ground arith

unequal_true : (a b : String) (q : Bool) → (a == b || q) ≡ true → a ≢ b → (not (a == b) && q) ≡ true
unequal_true a b q h k = ground (arith, ==_iff a b)

joins_to_walk :
    (g : Network) (ds : List Diagnostic) (a : String) {b : String}
    → Walk (joins g.edge) a b
    → Walk (view network g ds) a b
joins_to_walk g ds a here = here
joins_to_walk g ds a (step w k) = step (joins_to_walk g ds a w) k

pub network-DiGraphLaws : DiGraphLaws network
network-DiGraphLaws = record {
  has_node-empty = λ a. refl;
  has_node-add_node = λ g a b n. elem_first a b g.ids;
  has_node-add_edge = λ g a b c e. elem_two a b c g.ids;
  has_node-edit_edges = λ f g a. refl;
  node-empty = λ a. refl;
  node-add_node = λ g a b n. refl;
  node-add_edge = λ g a b c e. refl;
  node-edit_edges = λ f g a. refl;
  edge-empty = λ a b. refl;
  edge-add_node = λ g a b c n. refl;
  edge-add_edge = λ g a b c d e. refl;
  edge-edit_edges = λ f g a b. refl;
  edge_count-empty = refl;
  edge_count-add_node = λ g a n. refl;
  edge_count-add_edge = λ g a b e. refl;
  edge_count-edit_edges = λ f g. refl;
  elem-node_ids = λ g a. refl;
  elem-successors = λ g a b. successors_elem g a b;
  descendants_irrefl = λ g a. descendants_elem g a a ∙ ground (arith, ==_refl a);
  descendants_sound = λ g ds a b h.
      joins_to_walk g ds a
        (g.sound a b (second_true (not (a == b)) (g.reach a b) (sym (descendants_elem g a b) ∙ h)));
  descendants_complete = λ g ds a b w k.
      descendants_elem g a b ∙ (unequal_true a b (g.reach a b) (Walk-to_joins g ds a w) k);
}
