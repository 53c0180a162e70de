-- ===== src/Analysis/Bfs/Visits.antt =====
-- What one turn of the breadth-first search does to `parent` and the queue.
use blast_radius.Base.{
  ℕ, ◌+◌, ◌≤◌, ◌≡◌, refl, String, true, false, none, some, List, [], ◌∷◌, ◌++◌, ◌==◌, ==_iff,
  ==_refl, string_eq, elem, length, length-append, lookup, if◌then◌else◌, arith, all,
}
use blast_radius.Analysis.Bfs.{Parents, has_parent, Search, visit, visit_all}

pub lookup-append_one :
    (k : String) (p : Parents) (n c : String)
    → lookup k (p ++ (n, c) ∷ [])
      ≡ (elim (lookup k p) [ some u ↦ some u | none ↦ if n == k then some c else none ])
lookup-append_one k [] n c = refl
lookup-append_one k ((j, v) ∷ p) n c = ground (arith, lookup-append_one k p n c)

-- The nodes without a parent.
unfoldable pub unvisited : List String → Parents → ℕ
unvisited [] p = 0
unvisited (n ∷ ns) p = (if has_parent n p then 0 else 1) + unvisited ns p

unvisited-append :
    (ns : List String) (p : Parents) (n c : String)
    → unvisited ns (p ++ (n, c) ∷ []) ≤ unvisited ns p
unfolding unvisited
unvisited-append [] p n c = omega arith
unvisited-append (m ∷ ns) p n c =
    ground (arith, unvisited-append ns p n c, lookup-append_one m p n c)

unvisited-visit :
    (ns : List String) (p : Parents) (n c : String)
    → elem n ns ≡ true
    → has_parent n p ≡ false
    → unvisited ns (p ++ (n, c) ∷ []) + 1 ≤ unvisited ns p
unfolding unvisited
unvisited-visit [] p n c m h = cc
unvisited-visit (x ∷ ns) p n c m h = ground (
  arith,
  unvisited-visit ns p n c,
  unvisited-append ns p n c,
  lookup-append_one x p n c,
  ==_iff n x,
  ==_refl n,
)

unfoldable pub work : List String → Search → ℕ
work ns s = unvisited ns s.parent + length s.queue

visit-work :
    (ns : List String) (c n : String) (s : Search)
    → elem n ns ≡ true
    → work ns (visit c n s) ≤ work ns s
unfolding work visit
visit-work ns c n s m =
    ground (arith, unvisited-visit ns s.parent n c, length-append s.queue (n ∷ []))

pub visit_all-work :
    (ns : List String) (c : String) (ms : List String) (s : Search)
    → all (λ m. elem m ns) ms ≡ true
    → work ns (visit_all c ms s) ≤ work ns s
unfolding visit_all
visit_all-work ns c [] s h = omega arith
visit_all-work ns c (m ∷ ms) s h =
    ground (arith, visit-work ns c m s, visit_all-work ns c ms (visit c m s))
