-- ===== src/Diff/Gains.antt =====
-- What one analysis has that another does not, as `compare` lists it.
use blast_radius.Base.{
  ◌≡◌, refl, ap, ◌∙◌, subst, String, true, not, ◌&&◌, ◌||◌, ◌==◌, ==_iff, ==_refl, Eq, string_eq,
  pair_eq, some, none, Option, Bool-cases, inl, inr, List, [], ◌∷◌, map, elem, elem-keep,
  elem-dedupe, elem-sorted, elem-sort_by, map-sort_by, keep, lookup, insert, dedupe, sort_by, arith,
  All, IsNodup, Result, ok, >>=-eq-ok, of_option, traverse,
}
use blast_radius.Models.{AttackPath, GraphEdge, path_key}
use blast_radius.Graph.{Error, lookup_error}
use blast_radius.Analysis.Outcome.{AnalysisResult}
use blast_radius.Diff.{
  edge_key, edge_map, edge_map_from, edges_minus, key_le, keys, minus, paths_minus, path_map,
  path_map_from, contains_path, worse_first,
}
use blast_radius.Diff.Tables.{
  passes, IsKeyed, insert-IsKeyed, key-lookup, keys-insert, insert-IsNodup, kept-elem,
}

elem-keys :
    {A : Type 0} {K : Type 0} ⦃e : Eq K⦄ (k : K) (m : List (K × A))
    → elem k (keys m) ≡ true
    → (a : A) × (lookup k m ≡ some a)
elem-keys k [] h = cc
elem-keys k ((j, a) ∷ m) h = elim (Bool-cases (j == k)) [
  | inl e ↦ (a, rw e refl)
  | inr e ↦ let (b, r) = elem-keys k m (ground (arith, ==_iff k j, ==_iff j k)) in (b, rw e r)
]

traverse-ends :
    {A : Type 0} {B : Type 0} ⦃e : Eq A⦄ (f : A → Result Error B) (xs : List A)
    → ((x : A) → elem x xs ≡ true → (b : B) × (f x ≡ ok b))
    → (bs : List B) × (traverse f xs ≡ ok bs)
traverse-ends f [] h = ([], refl)
traverse-ends f (x ∷ xs) h =
    let (b, r) = h x (rw (==_refl x) refl) in
    let (bs, rs) = traverse-ends f xs (λ y m. h y (ground arith)) in (b ∷ bs, rw (r, rs) refl)

pub edges_minus-ends :
    (m n : List ((String × String) × GraphEdge)) → (es : List GraphEdge) × (edges_minus m n ≡ ok es)
unfolding edges_minus
edges_minus-ends m n =
    let ks = keep (λ k. not (elem k (keys n))) (keys m) in
    traverse-ends (λ k. of_option lookup_error (lookup k m)) (sort_by key_le ks)
      (λ k h.
        let (e, r) = elem-keys k m (
          ground (
            arith,
            elem-sort_by key_le k ks,
            elem-keep k (λ k. not (elem k (keys n))) (keys m),
            h,
          )) in
        (e, rw r refl))

elem-minus :
    (x : String) (xs ys : List String) → elem x (minus xs ys) ≡ (not (elem x ys) && elem x xs)
unfolding minus
elem-minus x xs ys =
    elem-sorted x (keep (λ x. not (elem x ys)) (dedupe xs))
    ∙ elem-keep x (λ x. not (elem x ys)) (dedupe xs)
    ∙ ap (λ b. not (elem x ys) && b) (elem-dedupe x xs)

-- The ends of the edges of a graph, and the keys of the attack paths.
abbrev pub edge_keys : AnalysisResult → List (String × String)
edge_keys r = map (λ t. edge_key t.2) r.graph.edges

abbrev pub path_keys : AnalysisResult → List String
path_keys r = map path_key r.attack_paths

abbrev ends_of : List (String × String × GraphEdge) → List (String × String)
ends_of es = map (λ t. edge_key t.2) es

keys-edge_map_from :
    (k : String × String) (es : List (String × String × GraphEdge))
    (m : List ((String × String) × GraphEdge))
    → elem k (keys (edge_map_from es m)) ≡ (elem k (ends_of es) || elem k (keys m))
unfolding edge_map_from
keys-edge_map_from k [] m = refl
keys-edge_map_from k ((a, b, e) ∷ es) m =
    keys-edge_map_from k es (insert (edge_key e) e m)
    ∙ (let i = keys-insert k (edge_key e) e m in rw i (ground arith))

edge_map_from-IsKeyed :
    (es : List (String × String × GraphEdge)) (m : List ((String × String) × GraphEdge))
    → IsKeyed edge_key m
    → IsKeyed edge_key (edge_map_from es m)
unfolding edge_map_from
edge_map_from-IsKeyed [] m h = h
edge_map_from-IsKeyed ((a, b, e) ∷ es) m h =
    edge_map_from-IsKeyed es (insert (edge_key e) e m) (insert-IsKeyed edge_key e m h)

keys-path_map_from :
    (k : String) (ps : List AttackPath) (m : List (String × AttackPath))
    → elem k (keys (path_map_from ps m)) ≡ (elem k (map path_key ps) || elem k (keys m))
unfolding path_map_from
keys-path_map_from k [] m = refl
keys-path_map_from k (p ∷ ps) m =
    keys-path_map_from k ps (insert (path_key p) p m)
    ∙ (let i = keys-insert k (path_key p) p m in rw i (ground arith))

path_map_from-IsKeyed :
    (ps : List AttackPath) (m : List (String × AttackPath))
    → IsKeyed path_key m
    → IsKeyed path_key (path_map_from ps m)
unfolding path_map_from
path_map_from-IsKeyed [] m h = h
path_map_from-IsKeyed (p ∷ ps) m h =
    path_map_from-IsKeyed ps (insert (path_key p) p m) (insert-IsKeyed path_key p m h)

path_map_from-IsNodup :
    (ps : List AttackPath) (m : List (String × AttackPath))
    → IsNodup (keys m)
    → IsNodup (keys (path_map_from ps m))
unfolding path_map_from
path_map_from-IsNodup [] m h = h
path_map_from-IsNodup (p ∷ ps) m h =
    path_map_from-IsNodup ps (insert (path_key p) p m) (insert-IsNodup (path_key p) p m h)

ok_list :
    {xs ys : List GraphEdge} → ◌≡◌ {A = Result Error (List GraphEdge)} (ok xs) (ok ys) → xs ≡ ys
ok_list h = cc

of_option-eq-ok :
    (o : Option GraphEdge) (e : GraphEdge)
    → ◌≡◌ {A = Result Error GraphEdge} (of_option lookup_error o) (ok e)
    → o ≡ some e
of_option-eq-ok none e h = cc
of_option-eq-ok (some a) e h = cc

-- What is looked up in a table has the keys that it was looked up by.
traverse-keys :
    (m : List ((String × String) × GraphEdge)) (ks : List (String × String)) (es : List GraphEdge)
    → IsKeyed edge_key m
    → traverse (λ k. of_option lookup_error (lookup k m)) ks ≡ ok es
    → (map edge_key es ≡ ks) × All (λ e. lookup (edge_key e) m ≡ some e) es
traverse-keys m [] es h e =
    subst (λ xs. (map edge_key xs ≡ []) × All (λ e. lookup (edge_key e) m ≡ some e) xs) (ok_list e)
      (refl, tt)
traverse-keys m (k ∷ ks) es h e =
    let (x, f, g) = >>=-eq-ok (of_option lookup_error (lookup k m)) _ e in
    let (xs, f', g') = >>=-eq-ok (traverse (λ k. of_option lookup_error (lookup k m)) ks) _ g in
    let found : lookup k m ≡ some x = of_option-eq-ok (lookup k m) x f in
    let named : edge_key x ≡ k = key-lookup edge_key k x m h found in
    let (same, stored) = traverse-keys m ks xs h f' in
    subst (λ ys. (map edge_key ys ≡ k ∷ ks) × All (λ e. lookup (edge_key e) m ≡ some e) ys)
      (ok_list g') (rw (named, same) refl, (rw named found, stored))

-- What the analysis `after` has that `before` does not: its nodes, its edges by their ends, each as
-- `after` stores it, its exposed and its reachable sensitive resources, and its attack paths by their
-- keys, where `before` has no path of the key and its graph lacks an edge of the path.
pub record Gains (before after : AnalysisResult) (nodes : List String) (edges : List GraphEdge)
    (exposed sensitive : List String) (paths : List AttackPath) : Type 0 where
  pub nodes_gained :
      (n : String) → elem n nodes ≡ (not (elem n before.graph.nodes) && elem n after.graph.nodes)
  pub edges_gained :
      (k : String × String)
      → elem k (map edge_key edges) ≡ (not (elem k (edge_keys before)) && elem k (edge_keys after))
  pub edges_stored : All (λ e. lookup (edge_key e) (edge_map after) ≡ some e) edges
  pub exposed_gained :
      (n : String)
      → elem n exposed ≡ (not (elem n before.exposed_resources) && elem n after.exposed_resources)
  pub sensitive_gained :
      (n : String)
      → elem n sensitive
        ≡ (not (elem n before.reachable_sensitive) && elem n after.reachable_sensitive)
  pub paths_gained :
      (k : String)
      → elem k (map path_key paths) ≡ (
          not (elem k (path_keys before))
          && passes (λ p. not (contains_path before p)) (lookup k (path_map after)))

edges_minus-keys :
    (m n : List ((String × String) × GraphEdge)) (es : List GraphEdge)
    → IsKeyed edge_key m
    → edges_minus m n ≡ ok es
    → ((k : String × String)
        → elem k (map edge_key es) ≡ (not (elem k (keys n)) && elem k (keys m)))
      × All (λ e. lookup (edge_key e) m ≡ some e) es
unfolding edges_minus
edges_minus-keys m n es h e =
    let ks = keep (λ k. not (elem k (keys n))) (keys m) in
    let (same, stored) = traverse-keys m (sort_by key_le ks) es h e in
    (
      (λ k.
          ap (elem k) same
          ∙ elem-sort_by key_le k ks
          ∙ elem-keep k (λ k. not (elem k (keys n))) (keys m)),
      stored,
    )

elem-edge_map :
    (k : String × String) (r : AnalysisResult) → elem k (keys (edge_map r)) ≡ elem k (edge_keys r)
unfolding edge_map
elem-edge_map k r = keys-edge_map_from k r.graph.edges [] ∙ ground arith

elem-path_map :
    (k : String) (r : AnalysisResult) → elem k (keys (path_map r)) ≡ elem k (path_keys r)
unfolding path_map
elem-path_map k r = keys-path_map_from k r.attack_paths [] ∙ ground arith

paths_minus-keys :
    (before after : AnalysisResult) (k : String)
    → elem k (map path_key (paths_minus after before)) ≡ (
        not (elem k (path_keys before))
        && passes (λ p. not (contains_path before p)) (lookup k (path_map after)))
unfolding paths_minus
paths_minus-keys before after k =
    map-sort_by worse_first path_key k _
    ∙ kept-elem path_key (λ j. not (elem j (keys (path_map before))))
        (λ p. not (contains_path before p)) k (path_map after)
        (unfold path_map in path_map_from-IsKeyed after.attack_paths [] tt)
        (unfold path_map in path_map_from-IsNodup after.attack_paths [] tt)
    ∙ ap (λ b. not b && passes (λ p. not (contains_path before p)) (lookup k (path_map after)))
        (elem-path_map k before)

-- The new nodes, edges, resources and paths of a comparison are what is gained.
pub gains :
    (before after : AnalysisResult) (es : List GraphEdge)
    → edges_minus (edge_map after) (edge_map before) ≡ ok es
    → Gains before after
        (minus after.graph.nodes before.graph.nodes)
        es
        (minus after.exposed_resources before.exposed_resources)
        (minus after.reachable_sensitive before.reachable_sensitive)
        (paths_minus after before)
gains before after es e =
    let (new, stored) =
      edges_minus-keys (edge_map after) (edge_map before) es
        (unfold edge_map in edge_map_from-IsKeyed after.graph.edges [] tt) e in
    record {
      nodes_gained = λ n. elem-minus n after.graph.nodes before.graph.nodes;
      edges_gained = λ k. new k ∙ rw (elem-edge_map k before, elem-edge_map k after) refl;
      edges_stored = stored;
      exposed_gained = λ n. elem-minus n after.exposed_resources before.exposed_resources;
      sensitive_gained = λ n. elem-minus n after.reachable_sensitive before.reachable_sensitive;
      paths_gained = paths_minus-keys before after;
    }
