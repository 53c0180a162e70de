-- ===== src/Analysis/Analyze/Returns.antt =====
-- `analyze` of attack_paths.py as a whole: that it returns, and what its result says of the graph.
use blast_radius.Base.{
  ◌≤◌, ◌≡◌, ◌≢◌, ◌↔◌, refl, sym, subst, ap, ◌∙◌, String, true, false, ◌&&◌, ◌==◌, string_eq,
  list_eq, Option, some, none, List, [], ◌∷◌, map, elem, elem-keep, elem-dedupe, elem-sorted,
  sort_by, keep, length, is_empty, arith, All, ok, dedupe, length-sort_by, map-sort_by, All-sort_by,
}
use blast_radius.Models.{internet_id, AttackPath, ResourceNode, node_type_eq, sensitive_data}
use blast_radius.Graph.{Graph, typed, IsDigraph, Walk, here, step, nodes_of_type}
use blast_radius.Analysis.Outcome.{AnalysisResult, resource_types}
use blast_radius.Analysis.Routes.{Starts, Ends, Linked}
use blast_radius.Analysis.Bfs.Ends.{breadth_first_ends}
use blast_radius.Analysis.Enumerate.{max_paths, max_path_work}
use blast_radius.Analysis.Enumerate.Sound.{IsBuilt}
use blast_radius.Analysis.Enumerate.Complete.{IsSimpleWalk}
use blast_radius.Analysis.Analyze.{Tally, path_le, with_paths, over_limit, analyze}
use blast_radius.Analysis.Analyze.Whole.{Gathered, each_target_ok}
use blast_radius.Analysis.Analyze.Surveyed.{
  all_reachable, all_sensitive, surveyed, markers, all_targets, no_self, reachable-elem, Walk-elem,
  survey-surveyed, choose_targets-all_targets, targets-elem, reached, Keeps, finish-Keeps, holds,
  of_kind, is_secret,
}

module _ (g : Graph) (d : IsDigraph g) where
  Walk-along :
      (a b t : String) (w : List String)
      → Walk g a b
      → Starts b w
      → Linked g w
      → Ends t w
      → Walk g a t
  Walk-along a b t [] v s l e = absurd s
  Walk-along a b t (c ∷ []) v s l e = subst (λ z. Walk g a z) (sym s ∙ e) v
  Walk-along a b t (c ∷ n ∷ w) v s l e =
      Walk-along a n t (n ∷ w) (step (subst (λ z. Walk g a z) (sym s) v) l.0) refl l.1 e

  -- What an analysis says of the graph.
  pub record Answers (r : AnalysisResult) : Type 0 where
    pub reachable :
        (n : String) → (elem n r.reachable ≡ true) ↔ ((n ≢ internet_id) × Walk g internet_id n)
    pub exposed :
        (n : String)
        → elem n r.exposed_resources
          ≡ (holds (of_kind resource_types) (g.node n) && elem n r.reachable)
    pub sensitive :
        (n : String)
        → elem n r.reachable_sensitive
          ≡ (elem n r.reachable && (holds is_secret (g.node n) && elem n g.nodes))
    pub built : All (λ p. (t : String) × IsBuilt g d t p) r.attack_paths
    pub every_walk :
        r.paths_truncated ≡ false
        → (t : String) (w : List String) → t ≢ internet_id
        → holds (λ a. a.type == sensitive_data) (g.node t) ≡ true
        → IsSimpleWalk g d t w
        → elem w (map (λ p. p.nodes) r.attack_paths) ≡ true
    pub few : length r.attack_paths ≤ max_paths
    pub work : r.path_work ≤ max_path_work

  reachable_lem :
      (n : String)
      → (elem n (all_reachable g d) ≡ true) ↔ ((n ≢ internet_id) × Walk g internet_id n)
  reachable_lem n = (
    (λ h.
        let m = (reachable-elem g d) n h in
        (
          (λ e. (no_self g d) (subst (λ z. elem z (g.descendants internet_id) ≡ true) e m)),
          d.descendants_sound internet_id n m,
        )),
    (λ (ne, w).
        elem-sorted n (g.descendants internet_id)
        ∙ d.descendants_complete internet_id n w (λ e. ne (sym e))),
  )

  elem_nonempty : (t : String) (xs : List String) → elem t xs ≡ true → is_empty xs ≡ false
  elem_nonempty t xs h = ground arith

  typed_of :
      (o : Option ResourceNode)
      → holds (λ a. a.type == sensitive_data) o ≡ true
      → typed (sensitive_data ∷ []) o ≡ true
  typed_of none h = h
  typed_of (some a) h = ground arith

  markers-elem :
      (t : String)
      → elem t g.nodes ≡ true
      → elem t (all_reachable g d) ≡ true
      → holds (λ a. a.type == sensitive_data) (g.node t) ≡ true
      → elem t (markers g d) ≡ true
  unfolding nodes_of_type
  markers-elem t m r h =
      let all_data = keep (λ n. typed (sensitive_data ∷ []) (g.node n)) g.nodes in
      let e = elem-keep t (λ n. typed (sensitive_data ∷ []) (g.node n)) g.nodes in
      elem-sorted t (keep (λ n. elem n (all_reachable g d)) (dedupe all_data))
      ∙ elem-keep t (λ n. elem n (all_reachable g d)) (dedupe all_data)
      ∙ rw (r, elem-dedupe t all_data, e, m, typed_of (g.node t) h) refl

  -- A reachable node of sensitive data is a target.
  data_targets :
      (t : String)
      → elem t g.nodes ≡ true
      → elem t (all_reachable g d) ≡ true
      → holds (λ a. a.type == sensitive_data) (g.node t) ≡ true
      → elem t (all_targets g d) ≡ true
  data_targets t m r h = let e = markers-elem t m r h in rw (elem_nonempty t (markers g d) e) e

  paths-keep :
      (ps : List AttackPath) (w : List String)
      → elem w (map (λ p. p.nodes) ps) ≡ true
      → elem w (map (λ p. p.nodes) (sort_by path_le ps)) ≡ true
  paths-keep ps w h = map-sort_by path_le (λ (p : AttackPath). p.nodes) w ps ∙ h

  module _ (k : elem internet_id g.nodes ≡ true) where
    tally-Answers :
        (label : String) (t : Tally) (s : AnalysisResult)
        → Gathered g d k
            (all_targets g d)
            (record { paths = []; path_work = 0; truncated = false })
            t
        → (Keeps g d) k (with_paths ((surveyed g d) label) t) s
        → Answers s
    unfolding with_paths
    tally-Answers label t s h q = record {
      reachable = λ n. rw q.reachable (reachable_lem n);
      exposed = λ n.
          rw (q.exposed, q.reachable)
            (elem-keep n (λ n. holds (of_kind resource_types) (g.node n)) (all_reachable g d));
      sensitive = λ n.
          rw (q.sensitive, q.reachable)
            (elem-keep n (λ n. elem n (all_reachable g d)) (all_sensitive g d)
              ∙ ap (λ b. elem n (all_reachable g d) && b)
                  (elem-sorted n (keep (λ n. holds is_secret (g.node n)) g.nodes)
                    ∙ elem-keep n (λ n. holds is_secret (g.node n)) g.nodes));
      built = rw q.paths (
          All-sort_by path_le (λ p. (t : String) × IsBuilt g d t p) t.paths
            (rw h.paths h.all_built));
      every_walk = λ e u w ne secret x.
          let v = Walk-along internet_id internet_id u w here x.start x.edges x.finish in
          let r = (reachable_lem u).1 (ne, v) in
          rw q.paths (
            paths-keep t.paths w (
              rw h.paths (
                h.every_walk (sym q.truncated ∙ e) u w
                  (data_targets u ((Walk-elem g d) k v) r secret) x)));
      few = rw (q.paths, length-sort_by path_le t.paths) h.within.paths;
      work = rw q.work h.within.work;
    }

    -- On a graph within the limits that holds the Internet node, `analyze` returns. A node is reachable
    -- in its result exactly when a walk leads to it from the Internet node and it is another; the
    -- exposed resources and the reachable sensitive resources are those of the reachable nodes. Every
    -- attack path is built of a route; there are at most 500, found with at most 100,000 units of work.
    -- Unless the paths are truncated, every simple walk from the Internet node to a node of sensitive
    -- data is one of them.
    pub analyze-Answers :
        (label : String)
        → over_limit g ≡ false
        → (r : AnalysisResult) × (analyze g label ≡ ok r) × Answers r
    unfolding analyze
    analyze-Answers label within =
        let (parent, searched) = breadth_first_ends g d k in
        let (t, looped, gathered) =
          each_target_ok g d k parent (all_targets g d)
            (record { paths = []; path_work = 0; truncated = false }) searched
            ((reached g d) k (all_targets g d) ((targets-elem g d) k))
            (record { work = ground arith; paths = ground arith }) in
        let (s, ended, kept) =
          (finish-Keeps g d) k (with_paths ((surveyed g d) label) t) (unfold with_paths in refl)
            (unfold with_paths in refl) in
        (
          s,
          rw
              (
                within,
                k,
                (survey-surveyed g d) k label,
                (choose_targets-all_targets g d) k,
                searched,
                looped,
                ended,
              )
              refl,
          tally-Answers label t s gathered kept,
        )
