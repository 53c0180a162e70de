-- ===== src/Analysis/Enumerate/Turnabout.antt =====
-- The route of the enumeration, turned about: what its key inherits from it.
use blast_radius.Base.{
  ◌+◌, ◌≤◌, ◌≡◌, refl, String, true, false, not, ==_iff, string_eq, List, [], ◌∷◌, all, elem,
  length, arith, IsNodup,
}
use blast_radius.Models.{internet_id}
use blast_radius.Graph.{Graph}
use blast_radius.Analysis.Routes.{Starts, Ends, Linked, IsRoute}
use blast_radius.Analysis.Enumerate.{rev_onto}
use blast_radius.Analysis.Enumerate.Sync.{Rooted, LinkedBack}

rev_onto-starts :
    (a : String) (route ys : List String)
    → Rooted (a ∷ route)
    → Starts internet_id (rev_onto (a ∷ route) ys)
rev_onto-starts a [] ys r = r
rev_onto-starts a (b ∷ route) ys r = rev_onto-starts b route (a ∷ ys) r

rev_onto-ends :
    (t y : String) (route ys : List String) → Ends t (y ∷ ys) → Ends t (rev_onto route (y ∷ ys))
rev_onto-ends t y [] ys h = h
rev_onto-ends t y (a ∷ route) ys h = rev_onto-ends t a route (y ∷ ys) h

pub ends-rev_onto :
    (t y : String) (route ys : List String) → Ends t (rev_onto route (y ∷ ys)) → Ends t (y ∷ ys)
ends-rev_onto t y [] ys h = h
ends-rev_onto t y (a ∷ route) ys h = ends-rev_onto t a route (y ∷ ys) h

rev_onto-Linked :
    (g : Graph) (y : String) (route ys : List String)
    → LinkedBack g (y ∷ route)
    → Linked g (y ∷ ys)
    → Linked g (rev_onto route (y ∷ ys))
rev_onto-Linked g y [] ys b h = h
rev_onto-Linked g y (a ∷ route) ys b h = rev_onto-Linked g a route (y ∷ ys) b.1 (b.0, h)

pub Linked-rev_onto :
    (g : Graph) (y : String) (route ys : List String)
    → Linked g (rev_onto route (y ∷ ys))
    → Linked g (y ∷ ys)
Linked-rev_onto g y [] ys h = h
Linked-rev_onto g y (a ∷ route) ys h = (Linked-rev_onto g a route (y ∷ ys) h).1

pub length-rev_onto :
    (route ys : List String) → length (rev_onto route ys) ≡ length route + length ys
length-rev_onto [] ys = omega arith
length-rev_onto (a ∷ route) ys = omega (arith, length-rev_onto route (a ∷ ys))

abbrev Apart : List String → List String → Type 0
Apart xs ys = all (λ v. not (elem v ys)) xs ≡ true

Apart-cons :
    (a : String) (xs ys : List String) → Apart xs ys → elem a xs ≡ false → Apart xs (a ∷ ys)
Apart-cons a [] ys h e = refl
Apart-cons a (x ∷ xs) ys h e = ground (arith, Apart-cons a xs ys, ==_iff x a, ==_iff a x)

rev_onto-IsNodup :
    (route ys : List String)
    → IsNodup route
    → IsNodup ys
    → Apart route ys
    → IsNodup (rev_onto route ys)
rev_onto-IsNodup [] ys n k h = k
rev_onto-IsNodup (a ∷ route) ys n k h =
    rev_onto-IsNodup route (a ∷ ys) n.1 (ground arith) (Apart-cons a route ys (ground arith) n.0)

-- In a simple list no member of the turned part occurs in the rest.
pub IsNodup-rev_onto :
    (route ys : List String) (v : String)
    → IsNodup (rev_onto route ys)
    → IsNodup ys × (elem v ys ≡ true → elem v route ≡ false)
IsNodup-rev_onto [] ys v n = (n, λ m. refl)
IsNodup-rev_onto (a ∷ route) ys v n =
    let (k, off) = IsNodup-rev_onto route (a ∷ ys) v n in
    (k.1, λ m. ground (arith, off, ==_iff v a))

Apart-single : (t : String) (route : List String) → elem t route ≡ false → Apart route (t ∷ [])
Apart-single t [] h = refl
Apart-single t (a ∷ route) h = ground (arith, Apart-single t route, ==_iff a t, ==_iff t a)

-- The key that the enumeration emits is a route.
pub rev_onto-IsRoute :
    (g : Graph) (target a : String) (route : List String)
    → Rooted (a ∷ route)
    → LinkedBack g (target ∷ a ∷ route)
    → IsNodup (a ∷ route)
    → elem target (a ∷ route) ≡ false
    → length (a ∷ route) ≤ 32
    → IsRoute g target (rev_onto (a ∷ route) (target ∷ []))
rev_onto-IsRoute g target a route r b n t l = record {
  start = rev_onto-starts a route (target ∷ []) r;
  finish = rev_onto-ends target target (a ∷ route) [] refl;
  edges = rev_onto-Linked g target (a ∷ route) [] b tt;
  simple =
      rev_onto-IsNodup (a ∷ route) (target ∷ []) n (refl, tt) (Apart-single target (a ∷ route) t);
  short = omega (arith, length-rev_onto (a ∷ route) (target ∷ []));
}
