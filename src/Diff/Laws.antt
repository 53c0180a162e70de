-- ===== src/Diff/Laws.antt =====
-- What `compare` of diff_engine.py promises.
use blast_radius.Base.{
  ◌≡◌, refl, sym, ap, ◌∙◌, String, Bool, true, false, not, ◌&&◌, ==_refl, Eq, string_eq, pair_eq,
  ◌⊎◌, List, [], ◌∷◌, map, all, elem, elem-dedupe, all-sort_by, keep, dedupe, sorted, sort_by,
  arith, Result, ok, >>=-eq-ok, all_of_elem, List-cases, ℤ, if◌then◌else◌, ltb_ℤ,
}
use blast_radius.Models.{AttackPath, GraphEdge}
use blast_radius.Graph.{Error}
use blast_radius.Analysis.Outcome.{AnalysisResult, complete}
use blast_radius.Diff.Gains.{Gains, edges_minus-ends, gains}
use blast_radius.Diff.{
  improved, unchanged, incomplete, GraphDiff, compare, differences, judged, determine_verdict,
  edge_map, edges_minus, removed_critical_paths, keys, minus, paths_minus, path_map, contains_path,
  worse_first, diff_complete, new_critical_paths,
}

-- Nothing of a list is left when the list itself is taken away.
keep-elem-nil :
    {A : Type 0} ⦃e : Eq A⦄ (ys zs : List A)
    → all (λ x. elem x ys) zs ≡ true
    → keep (λ x. not (elem x ys)) zs ≡ []
keep-elem-nil ys [] h = refl
keep-elem-nil ys (z ∷ zs) h = ground (arith, keep-elem-nil ys zs)

minus_self : (xs : List String) → minus xs xs ≡ []
unfolding minus sorted sort_by
minus_self xs =
    rw
      (keep-elem-nil xs (dedupe xs)
        (all_of_elem (λ x. elem x xs) (dedupe xs) (λ x h. sym (elem-dedupe x xs) ∙ h)))
      refl

keep-keys-nil :
    {A : Type 0} (ks : List String) (q : A → Bool) (m : List (String × A))
    → ((k : String) → elem k (keys m) ≡ true → elem k ks ≡ true)
    → keep (λ e. not (elem e.0 ks) && q e.1) m ≡ []
keep-keys-nil ks q [] h = refl
keep-keys-nil ks q ((k, a) ∷ m) h =
    rw (h k (rw (==_refl k) refl), keep-keys-nil ks q m (λ j e. h j (ground arith))) refl

paths_minus_self : (r : AnalysisResult) → paths_minus r r ≡ []
unfolding paths_minus sort_by
paths_minus_self r =
    rw (keep-keys-nil (keys (path_map r)) (λ p. not (contains_path r p)) (path_map r) (λ k h. h))
      refl

all-keep-values :
    (p : AttackPath → Bool) (c : String → Bool) (m : List (String × AttackPath))
    → all p (map (λ e. e.1) (keep (λ e. c e.0 && p e.1) m)) ≡ true
all-keep-values p c [] = refl
all-keep-values p c ((k, a) ∷ m) = ground (arith, all-keep-values p c m)

paths_minus-all :
    (r other : AnalysisResult) → all (λ p. not (contains_path other p)) (paths_minus r other) ≡ true
unfolding paths_minus
paths_minus-all r other =
    all-sort_by worse_first (λ p. not (contains_path other p)) _
    ∙ all-keep-values (λ p. not (contains_path other p)) (λ k. not (elem k (keys (path_map other))))
        (path_map r)

-- What a diff says of two analyses: what the second has and the first does not, and the other way round,
-- and that no new path has all its edges in the first graph, nor a removed one in the second.
pub record Compares (before after : AnalysisResult) (d : GraphDiff) : Type 0 where
  pub gained :
      Gains before after d.new_nodes d.new_edges d.newly_exposed d.newly_reachable_sensitive
        d.new_attack_paths
  pub lost :
      Gains after before d.removed_nodes d.removed_edges d.no_longer_exposed
        d.no_longer_reachable_sensitive d.removed_attack_paths
  pub fresh : all (λ p. not (contains_path before p)) d.new_attack_paths ≡ true
  pub broken : all (λ p. not (contains_path after p)) d.removed_attack_paths ≡ true

-- Comparing two analyses returns a diff. Its new nodes, new edges by their ends, newly exposed resources
-- and newly reachable sensitive resources are those of the second analysis that the first does not
-- have, and each new edge is as the second stores it. A path is new exactly where the second analysis
-- has it under a key, the first has no path of that key, and the first graph lacks one of its edges.
-- What is removed is the same the other way round.
pub compare_lem :
    (before after : AnalysisResult)
    → (d : GraphDiff) × (compare before after ≡ ok d) × Compares before after d
unfolding compare judged differences
compare_lem before after =
    let (new, e) = edges_minus-ends (edge_map after) (edge_map before) in
    let (gone, f) = edges_minus-ends (edge_map before) (edge_map after) in
    (
      judged (differences before after new gone),
      rw (e, f) refl,
      record {
        gained = gains before after new e;
        lost = gains after before gone f;
        fresh = paths_minus-all after before;
        broken = paths_minus-all before after;
      },
    )

ltb_ℤ-irrefl : (a : ℤ) → ltb_ℤ a a ≡ false
ltb_ℤ-irrefl a = ground arith

ok-injective : {a b : GraphDiff} → ◌≡◌ {A = Result Error GraphDiff} (ok a) (ok b) → a ≡ b
ok-injective h = cc

edges_minus_self : (m : List ((String × String) × GraphEdge)) → edges_minus m m ≡ ok []
unfolding edges_minus sort_by
edges_minus_self m =
    rw (keep-elem-nil (keys m) (keys m) (all_of_elem (λ k. elem k (keys m)) (keys m) (λ k h. h)))
      refl

-- Nothing is new and nothing is gone, and the verdict says so where the analysis is complete.
pub record IsQuiet (r : AnalysisResult) (d : GraphDiff) : Type 0 where
  pub nodes : (d.new_nodes ≡ []) × (d.removed_nodes ≡ [])
  pub edges : (d.new_edges ≡ []) × (d.removed_edges ≡ [])
  pub exposed : (d.newly_exposed ≡ []) × (d.no_longer_exposed ≡ [])
  pub sensitive : (d.newly_reachable_sensitive ≡ []) × (d.no_longer_reachable_sensitive ≡ [])
  pub paths : (d.new_attack_paths ≡ []) × (d.removed_attack_paths ≡ [])
  pub judgement : d.verdict ≡ (if complete r then unchanged else incomplete)

verdict_of :
    (c : Bool)
    → (if not (c && c) then incomplete else unchanged) ≡ (if c then unchanged else incomplete)
verdict_of true = refl
verdict_of false = refl

differences_self : (r : AnalysisResult) → IsQuiet r (judged (differences r r [] []))
unfolding judged differences determine_verdict diff_complete new_critical_paths
    removed_critical_paths
differences_self r =
    let sensitive = minus_self r.reachable_sensitive in
    let exposed = minus_self r.exposed_resources in
    let paths = paths_minus_self r in
    record {
      nodes = (minus_self r.graph.nodes, minus_self r.graph.nodes);
      edges = (refl, refl);
      exposed = (exposed, exposed);
      sensitive = (sensitive, sensitive);
      paths = (paths, paths);
      judgement = rw (sensitive, exposed, paths, ltb_ℤ-irrefl r.score) (verdict_of (complete r));
    }

-- An analysis compared with itself has a diff with nothing new and nothing removed: no node, edge,
-- exposed resource, reachable sensitive resource or attack path. The verdict is that nothing changed
-- where the analysis is complete, and that it is incomplete where it is not.
pub compare_self : (r : AnalysisResult) → (d : GraphDiff) × (compare r r ≡ ok d) × IsQuiet r d
unfolding compare
compare_self r =
    (judged (differences r r [] []), rw (edges_minus_self (edge_map r)) refl, differences_self r)

-- Comparing the other way round exchanges what is new and what is gone.
pub compare-swap :
    (before after : AnalysisResult) (d e : GraphDiff)
    → compare before after ≡ ok d
    → compare after before ≡ ok e
    → (e.new_nodes ≡ d.removed_nodes)
      × (e.new_edges ≡ d.removed_edges)
      × (e.newly_exposed ≡ d.no_longer_exposed)
      × (e.newly_reachable_sensitive ≡ d.no_longer_reachable_sensitive)
      × (e.new_attack_paths ≡ d.removed_attack_paths)
unfolding compare judged differences
compare-swap before after d e h k =
    let (new, m, h') = >>=-eq-ok (edges_minus (edge_map after) (edge_map before)) _ h in
    let (gone, n, h'') = >>=-eq-ok (edges_minus (edge_map before) (edge_map after)) _ h' in
    let (new', m', k') = >>=-eq-ok (edges_minus (edge_map before) (edge_map after)) _ k in
    let (gone', n', k'') = >>=-eq-ok (edges_minus (edge_map after) (edge_map before)) _ k' in
    let d_is = ok-injective h'' in
    let e_is = ok-injective k'' in
    let same : new' ≡ gone = cc in
    (
      sym (ap (λ x. x.new_nodes) e_is) ∙ ap (λ x. x.removed_nodes) d_is,
      sym (ap (λ x. x.new_edges) e_is) ∙ same ∙ ap (λ x. x.removed_edges) d_is,
      sym (ap (λ x. x.newly_exposed) e_is) ∙ ap (λ x. x.no_longer_exposed) d_is,
      sym (ap (λ x. x.newly_reachable_sensitive) e_is)
          ∙ ap (λ x. x.no_longer_reachable_sensitive) d_is,
      sym (ap (λ x. x.new_attack_paths) e_is) ∙ ap (λ x. x.removed_attack_paths) d_is,
    )

-- A verdict of no change or of an improvement is given only where both analyses are complete, no
-- sensitive resource became reachable and no critical path is new.
pub determine_verdict-safe :
    (d : GraphDiff)
    → (determine_verdict d ≡ unchanged) ⊎ (determine_verdict d ≡ improved)
    → (diff_complete d ≡ true) × (d.newly_reachable_sensitive ≡ []) × (new_critical_paths d ≡ [])
unfolding determine_verdict
determine_verdict-safe d h =
    ground (arith, List-cases d.newly_reachable_sensitive, List-cases (new_critical_paths d))
