-- ===== src/Policy/Laws.antt =====
-- What a policy that loads without an error promises.
use blast_radius.Base.{
  ℕ, ℤ, pos, ◌≤ℤ◌, ◌≡◌, ap, subst, String, true, false, string_eq, Option, some, none, List, [],
  ◌∷◌, is_empty, arith, Result, ok, err, >>=-eq-ok, guard, guard-eq-ok,
}
use blast_radius.Python.{
  Value, Fields, null, bool, int, float, str, policy_str, list, dict, codes, field_or,
}
use blast_radius.Policy.{
  Policy, PolicyError, load_policy_data, load_mapping, minimum_of, directory_of, directory_of_text,
  unknown_in, escapes, slashed, section, coerce_bool, is_version_one, unsupported_version,
  unknown_keys,
}

abbrev InRange : Option ℤ → Type 0
InRange none = Unit {0}
InRange (some n) = (pos 0 ≤ℤ n) × (n ≤ℤ pos 100)

minimum_of-InRange : (v : Value) (m : Option ℤ) → minimum_of v ≡ ok m → InRange m
unfolding minimum_of
minimum_of-InRange v none h = tt
minimum_of-InRange (int n) (some m) h = ground arith
minimum_of-InRange null (some m) h = cc
minimum_of-InRange (bool b) (some m) h = cc
minimum_of-InRange (float t n z) (some m) h = cc
minimum_of-InRange (str s) (some m) h = cc
minimum_of-InRange (policy_str s a) (some m) h = cc
minimum_of-InRange (list vs) (some m) h = cc
minimum_of-InRange (dict fs) (some m) h = cc

-- A directory comes from a text that does not start with a slash, and has no colon and no "..".
abbrev IsInside : (List ℕ → String) → Option String → Type 0
IsInside path none = Unit {0}
IsInside path (some d) = (s : List ℕ) × (escapes s ≡ false) × (d ≡ path s)

directory_of_text-IsInside :
    (path : List ℕ → String) (s : String) (d : Option String)
    → directory_of_text path s ≡ ok d
    → IsInside path d
unfolding directory_of_text
directory_of_text-IsInside path s none h = tt
directory_of_text-IsInside path s (some d) h = (slashed (codes s), ground arith, ground arith)

directory_of-IsInside :
    (path : List ℕ → String) (v : Value) (d : Option String)
    → directory_of path v ≡ ok d
    → IsInside path d
unfolding directory_of
directory_of-IsInside path v none h = tt
directory_of-IsInside path null (some d) h = cc
directory_of-IsInside path (str s) (some d) h = directory_of_text-IsInside path s (some d) h
directory_of-IsInside path (policy_str s a) (some d) h =
    directory_of_text-IsInside path s (some d) h
directory_of-IsInside path (bool b) (some d) h = cc
directory_of-IsInside path (int n) (some d) h = cc
directory_of-IsInside path (float t n z) (some d) h = cc
directory_of-IsInside path (list vs) (some d) h = cc
directory_of-IsInside path (dict fs) (some d) h = cc

abbrev known_keys : List String
known_keys = "version" ∷ "gate" ∷ "allowed" ∷ "thresholds" ∷ "terraform_dir" ∷ []

abbrev HasKnownKeys : Value → Type 0
HasKnownKeys (dict fs) = is_empty (unknown_in known_keys fs) ≡ true
HasKnownKeys _ = Unit {0}

pub record IsLoaded (path : List ℕ → String) (value : Value) (p : Policy) : Type 0 where
  pub minimum : InRange p.minimum_security_score
  pub directory : IsInside path p.terraform_dir
  pub keys : HasKnownKeys value

load_mapping-IsLoaded :
    (path : List ℕ → String) (fs : Fields) (source : Option String) (p : Policy)
    → load_mapping path fs source ≡ ok p
    → IsLoaded path (dict fs) p
unfolding load_mapping
load_mapping-IsLoaded path fs source p h =
    let (u, known, h1) =
      >>=-eq-ok
        (guard (is_empty (unknown_in known_keys fs)) (unknown_keys (unknown_in known_keys fs))) _
        h in
    let (v, version, h2) =
      >>=-eq-ok
        (guard (is_version_one path (field_or fs "version" (int (pos 1)))) unsupported_version) _
        h1 in
    let (gate, e3, h3) =
      >>=-eq-ok
        (section fs "gate" (
          "block_new_critical_paths" ∷ "block_new_sensitive_exposure" ∷ "block_public_admin_ports"
          ∷ []))
        _ h2 in
    let (allowed, e4, h4) = >>=-eq-ok (section fs "allowed" ("public_https" ∷ [])) _ h3 in
    let (thresholds, e5, h5) =
      >>=-eq-ok (section fs "thresholds" ("minimum_security_score" ∷ [])) _ h4 in
    let (minimum, e6, h6) =
      >>=-eq-ok (minimum_of (field_or thresholds "minimum_security_score" null)) _ h5 in
    let (directory, e7, h7) =
      >>=-eq-ok (directory_of path (field_or fs "terraform_dir" null)) _ h6 in
    let (critical, e8, h8) =
      >>=-eq-ok
        (coerce_bool "block_new_critical_paths"
          (field_or gate "block_new_critical_paths" (bool true)))
        _ h7 in
    let (sensitive, e9, h9) =
      >>=-eq-ok
        (coerce_bool "block_new_sensitive_exposure"
          (field_or gate "block_new_sensitive_exposure" (bool true)))
        _ h8 in
    let (admin, e10, h10) =
      >>=-eq-ok
        (coerce_bool "block_public_admin_ports"
          (field_or gate "block_public_admin_ports" (bool true)))
        _ h9 in
    let (https, e11, h11) =
      >>=-eq-ok (coerce_bool "public_https" (field_or allowed "public_https" (bool true))) _ h10 in
    let m : minimum ≡ p.minimum_security_score = ap minimum_in h11 in
    let d : directory ≡ p.terraform_dir = ap directory_in h11 in
    record {
      minimum =
          subst InRange m
            (minimum_of-InRange (field_or thresholds "minimum_security_score" null) minimum e6);
      directory =
          subst (IsInside path) d
            (directory_of-IsInside path (field_or fs "terraform_dir" null) directory e7);
      keys = guard-eq-ok (is_empty (unknown_in known_keys fs)) _ known;
    }
  where
    minimum_in : Result PolicyError Policy → Option ℤ
    minimum_in (ok q) = q.minimum_security_score
    minimum_in (err e) = none

    directory_in : Result PolicyError Policy → Option String
    directory_in (ok q) = q.terraform_dir
    directory_in (err e) = none

-- A policy that loads has known top-level keys alone, a minimum score that is absent or from 0 to
-- 100, and a directory that is absent or was written as a relative one without a colon or a "..".
pub load_policy_data-IsLoaded :
    (path : List ℕ → String) (value : Value) (source : Option String) (p : Policy)
    → load_policy_data path value source ≡ ok p
    → IsLoaded path value p
unfolding load_policy_data
load_policy_data-IsLoaded path null source p h = record {
  minimum =
      subst InRange (ap (λ q. elim q [ ok x ↦ x.minimum_security_score | err e ↦ none ]) h) tt;
  directory =
      subst (IsInside path) (ap (λ q. elim q [ ok x ↦ x.terraform_dir | err e ↦ none ]) h) tt;
  keys = tt;
}
load_policy_data-IsLoaded path (dict fs) source p h = load_mapping-IsLoaded path fs source p h
load_policy_data-IsLoaded path (bool b) source p h = cc
load_policy_data-IsLoaded path (int n) source p h = cc
load_policy_data-IsLoaded path (float t n z) source p h = cc
load_policy_data-IsLoaded path (str s) source p h = cc
load_policy_data-IsLoaded path (policy_str s a) source p h = cc
load_policy_data-IsLoaded path (list vs) source p h = cc
