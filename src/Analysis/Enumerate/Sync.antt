-- ===== src/Analysis/Enumerate/Sync.antt =====
-- How the stack, the route and the visited set of the enumeration hang together.
use blast_radius.Base.{
  ℕ, ◌≤◌, ◌≡◌, refl, subst, ap, String, Bool, true, false, not, ◌==◌, ==_iff, string_eq, list_eq,
  some, List, [], ◌∷◌, all, elem, elem-keep, length, arith, IsNodup, elem-sorted, all_of_elem,
}
use blast_radius.Models.{internet_id, AttackPath}
use blast_radius.Graph.{Graph, IsDigraph, has_edge}
use blast_radius.Analysis.Bfs.{adjacency}
use blast_radius.Analysis.Enumerate.Frames.{
  Turned, spent, popped, skipped, repeated, found, too_deep, pushed,
}
use blast_radius.Analysis.Enumerate.{Dfs, Frame}

abbrev pub Rooted : List String → Type 0
Rooted [] = Unit {0}
Rooted (a ∷ []) = a ≡ internet_id
Rooted (a ∷ b ∷ rest) = Rooted (b ∷ rest)

module _ (g : Graph) where
  abbrev pub LinkedBack : List String → Type 0
  LinkedBack [] = Unit {0}
  LinkedBack (a ∷ []) = Unit {0}
  LinkedBack (a ∷ b ∷ rest) = (has_edge g b a ≡ true) × LinkedBack (b ∷ rest)

  -- The route is the frames' nodes, and what an iterator has left are successors of its node.
  abbrev pub Iterate : List Frame → List String → Type 0
  Iterate [] [] = Unit {0}
  Iterate [] (n ∷ route) = ⊥
  Iterate (f ∷ frames) [] = ⊥
  Iterate (f ∷ frames) (n ∷ route) =
      (f.0 ≡ n) × (all (has_edge g n) f.1 ≡ true) × Iterate frames route

  Iterate-take :
      (k m : String) (ms : List String) (rest : List Frame) (route : List String)
      → Iterate ((k, m ∷ ms) ∷ rest) route
      → Iterate ((k, ms) ∷ rest) route
  Iterate-take k m ms rest [] h = h
  Iterate-take k m ms rest (n ∷ route) h = ground arith

  pub LinkedBack-take :
      (k m : String) (ms : List String) (rest : List Frame) (route : List String)
      → Iterate ((k, m ∷ ms) ∷ rest) route
      → LinkedBack route
      → LinkedBack (m ∷ route)
  LinkedBack-take k m ms rest [] h l = absurd h
  LinkedBack-take k m ms rest (n ∷ route) h l = ground arith

  Rooted-take :
      (k m : String) (ms : List String) (rest : List Frame) (route : List String)
      → Iterate ((k, m ∷ ms) ∷ rest) route
      → Rooted route
      → Rooted (m ∷ route)
  Rooted-take k m ms rest [] h l = absurd h
  Rooted-take k m ms rest (n ∷ route) h l = l

  LinkedBack-tail : (n : String) (route : List String) → LinkedBack (n ∷ route) → LinkedBack route
  LinkedBack-tail n [] l = tt
  LinkedBack-tail n (a ∷ route) l = l.1

  Rooted-tail : (n : String) (route : List String) → Rooted (n ∷ route) → Rooted route
  Rooted-tail n [] l = tt
  Rooted-tail n (a ∷ route) l = l

  pub adjacency-edges :
      (d : IsDigraph g) (m : String) (ns : List String)
      → adjacency g m ≡ some ns
      → all (has_edge g m) ns ≡ true
  unfolding adjacency
  adjacency-edges d m ns h =
      all_of_elem (has_edge g m) ns
        λ a k. ground (arith, elem-sorted a (g.successors m), d.successors_lem m a)

  module _ (d : IsDigraph g) (target : String) where
    pub record InSync (s : Dfs) : Type 0 where
      pub frames : Iterate s.stack s.route
      pub seen : (v : String) → elem v s.visited ≡ elem v s.route
      pub simple : IsNodup s.route
      pub linked : LinkedBack s.route
      pub root : Rooted s.route
      pub short : length s.route ≤ 32
      pub avoids : elem target s.route ≡ false

    -- The frames and the route, with the stack's equation put in.
    frames_at : (s : Dfs) (stack : List Frame) → InSync s → s.stack ≡ stack → Iterate stack s.route
    frames_at s stack h e = subst (λ x. Iterate x s.route) e h.frames

    taken_InSync :
        (s : Dfs) (k m : String) (ms : List String) (rest : List Frame)
        (emitted : List (List String)) (paths : List AttackPath) (work : ℕ) (cut : Bool)
        → InSync s
        → s.stack ≡ (k, m ∷ ms) ∷ rest
        → InSync (record s {
          stack = (k, ms) ∷ rest;
          emitted = emitted;
          paths = paths;
          path_work = work;
          truncated = cut;
        })
    taken_InSync s k m ms rest emitted paths work cut h e = record {
      frames = Iterate-take k m ms rest s.route (frames_at s _ h e);
      seen = h.seen;
      simple = h.simple;
      linked = h.linked;
      root = h.root;
      short = h.short;
      avoids = h.avoids;
    }

    pub Turned-InSync : {s t : Dfs} → InSync s → Turned g target s t → InSync t
    Turned-InSync h (spent b) = record {
      frames = h.frames;
      seen = h.seen;
      simple = h.simple;
      linked = h.linked;
      root = h.root;
      short = h.short;
      avoids = h.avoids;
    }
    Turned-InSync {s} h (popped k n rest route b e w) =
        let f = subst (Iterate ((k, []) ∷ rest)) w (frames_at s _ h e) in
        let simple = subst IsNodup w h.simple in
        record {
          frames = f.2;
          seen = λ v. ground (
            arith,
            elem-keep v (λ x. not (x == n)) s.visited,
            h.seen v,
            ap (elem v) w,
            ==_iff v n,
          );
          simple = simple.1;
          linked = LinkedBack-tail n route (subst LinkedBack w h.linked);
          root = Rooted-tail n route (subst Rooted w h.root);
          short = omega (arith, h.short, ap length w);
          avoids = ground (arith, h.avoids, ap (elem target) w);
        }
    Turned-InSync {s} h (skipped k m ms rest b e old) = taken_InSync s k m ms rest _ _ _ _ h e
    Turned-InSync {s} h (repeated k m ms rest cut b e same old c) =
        taken_InSync s k m ms rest _ _ _ _ h e
    Turned-InSync {s} h (found k m ms rest p cut b e same new built c) =
        taken_InSync s k m ms rest _ _ _ _ h e
    Turned-InSync {s} h (too_deep k m ms rest b e) = taken_InSync s k m ms rest _ _ _ _ h e
    Turned-InSync {s} h (pushed k m ms ns rest b e new other room adj) =
        let f = frames_at s _ h e in
        record {
          frames = (refl, adjacency-edges d m ns adj, Iterate-take k m ms rest s.route f);
          seen = λ v. ground (arith, h.seen v);
          simple = (ground (arith, h.seen m), h.simple);
          linked = LinkedBack-take k m ms rest s.route f h.linked;
          root = Rooted-take k m ms rest s.route f h.root;
          short = ground (arith, h.short);
          avoids = ground (arith, h.avoids, ==_iff m target, ==_iff target m);
        }
