-- ===== src/Analysis/Routes.antt =====
-- What a route of the analysis is: a simple walk along the edges of the graph, from the Internet
-- node to its target, of at most as many nodes as the depth budget allows.
use blast_radius.Base.{◌≤◌, ◌≡◌, String, true, List, [], ◌∷◌, length, IsNodup, string_eq}
use blast_radius.Models.{internet_id}
use blast_radius.Graph.{Graph, has_edge}

abbrev pub Starts : String → List String → Type 0
Starts a [] = ⊥
Starts a (b ∷ rest) = b ≡ a

abbrev pub Ends : String → List String → Type 0
Ends a [] = ⊥
Ends a (b ∷ []) = b ≡ a
Ends a (b ∷ c ∷ rest) = Ends a (c ∷ rest)

abbrev pub Linked : Graph → List String → Type 0
Linked g [] = Unit {0}
Linked g (a ∷ []) = Unit {0}
Linked g (a ∷ b ∷ rest) = (has_edge g a b ≡ true) × Linked g (b ∷ rest)

pub record IsRoute (g : Graph) (target : String) (route : List String) : Type 0 where
  pub start : Starts internet_id route
  pub finish : Ends target route
  pub edges : Linked g route
  pub simple : IsNodup route
  pub short : length route ≤ 33
