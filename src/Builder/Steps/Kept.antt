-- ===== src/Builder/Steps/Kept.antt =====
-- What `_add_edge` keeps, and the rule for the loops of graph_builder.py.
use blast_radius.Base.{
  ◌≤◌, ◌<◌, ◌≡◌, ◌≢◌, String, true, false, ◌&&◌, ◌==◌, string_eq, Option, some, none, ◌⊎◌, List, [],
  ◌∷◌, All,
}
use blast_radius.Models.{GraphEdge, rank}
use blast_radius.Digraph.{DiGraph, DiGraphLaws}
use blast_radius.Builder.{Build, for_each, max_graph_edges}
use blast_radius.Builder.Steps.{add_edge}

-- A loop keeps what each round keeps, where the members have what a round needs.
pub for_each-keeps {ℓ κ ι} :
    {A : Type ℓ} {S : Type κ} (P : S → Type ι) (Q : A → Type 0) (f : A → S → S) (l : List A) (s : S)
    → ((a : A) (s : S) → Q a → P s → P (f a s))
    → All Q l
    → P s
    → P (for_each f l s)
unfolding for_each
for_each-keeps P Q f [] s step q h = h
for_each-keeps P Q f (a ∷ l) s step q h = for_each-keeps P Q f l (f a s) step q.1 (step a s q.0 h)

module _ {G : Type 0} (x : DiGraph G) (laws : DiGraphLaws x) where
  abbrev between : GraphEdge → Build G → Option GraphEdge
  between e s = x.edge s.graph e.source e.target

  -- What adding the edge `e` to `s` has stored.
  pub record Stores (e : GraphEdge) (s t : Build G) : Type 0 where
    pub stored : GraphEdge
    pub found : between e t ≡ some stored
    pub riskier : rank e.risk ≤ rank stored.risk
    pub origin : (stored ≡ e) ⊎ (between e s ≡ some stored)
    pub worst : (e' : GraphEdge) → between e s ≡ some e' → rank e'.risk ≤ rank stored.risk
    pub room : (between e s ≢ none) ⊎ (x.edge_count s.graph < max_graph_edges)
    pub rest : t ≡ record s { graph = t.graph }
    pub others :
        (a b : String)
        → (e.source == a && e.target == b) ≡ false
        → x.edge t.graph a b ≡ x.edge s.graph a b

  -- That the edge `e` had no room.
  pub record Refuses (e : GraphEdge) (s t : Build G) : Type 0 where
    pub absent : between e s ≡ none
    pub full : max_graph_edges ≤ x.edge_count s.graph
    pub noted : t ≡ record s { edge_limit_reached = true }

  put : (e : GraphEdge) (s : Build G) → Build G
  put e s = record s { graph = x.add_edge s.graph e.source e.target e }
