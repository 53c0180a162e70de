-- ===== src/Server/Jobs/Keys.antt =====
-- The ids of the analyses, and how many of a list are kept.
use blast_radius.Base.{
  ◌≤◌, ◌<◌, ◌≡◌, sym, ap, String, Bool, true, false, some, List, [], ◌∷◌, lookup, insert, arith,
  Bool-cases, inl, inr, ◌==◌, string_eq, ==_iff, keep, elem, length, map,
}
use blast_radius.Server.Jobs.Kinds.{Job, Rows}

abbrev pub ids_of : Rows → List String
ids_of rows = map (λ row. row.0) rows.jobs

pub insert-keys :
    (id : String) (old new : Job) (jobs : List (String × Job))
    → lookup id jobs ≡ some old
    → map (λ row. row.0) (insert id new jobs) ≡ map (λ row. row.0) jobs
insert-keys id old new [] h = cc
insert-keys id old new ((j, job) ∷ jobs) h = elim (Bool-cases (j == id)) [
  | inl e ↦ rw e (ap (λ k. k ∷ map (λ row. row.0) jobs) (sym ((==_iff j id).0 e)))
  | inr e ↦ rw e (ap (λ ks. j ∷ ks) (insert-keys id old new jobs (ground arith)))
]

pub elem-keys :
    (id : String) (job : Job) (jobs : List (String × Job))
    → lookup id jobs ≡ some job
    → elem id (map (λ row. row.0) jobs) ≡ true
elem-keys id job [] h = cc
elem-keys id job ((j, other) ∷ jobs) h =
    ground (arith, ==_iff j id, ==_iff id j, elem-keys id job jobs)

pub length-keep_le :
    (p q : String → Bool) (xs : List String)
    → ((b : String) → q b ≡ true → p b ≡ true)
    → length (keep q xs) ≤ length (keep p xs)
length-keep_le p q [] h = omega arith
length-keep_le p q (x ∷ xs) h = ground (arith, h x, length-keep_le p q xs h)

-- Fewer members pass a test that is stronger, where one that passed no longer does.
pub length-keep_lt :
    (p q : String → Bool) (a : String) (xs : List String)
    → ((b : String) → q b ≡ true → p b ≡ true)
    → elem a xs ≡ true
    → p a ≡ true
    → q a ≡ false
    → length (keep q xs) < length (keep p xs)
length-keep_lt p q a [] h m t f = cc
length-keep_lt p q a (x ∷ xs) h m t f = elim (Bool-cases (a == x)) [
  | inl e ↦ ground (
    arith,
    length-keep_le p q xs h,
    (==_iff a x).0 e,
    ap p ((==_iff a x).0 e),
    ap q ((==_iff a x).0 e),
  )
  | inr e ↦ ground (arith, length-keep_lt p q a xs h, h x)
]
