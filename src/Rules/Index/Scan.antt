-- ===== src/Rules/Index/Scan.antt =====
-- The index of a config's resources agrees with a scan of the resources.
use blast_radius.Base.{
  String, Bool, true, false, ◌==◌, ◌||◌, ◌&&◌, ==_iff, string_eq, List, [], ◌∷◌, ◌++◌, elem, keep,
  lookup, lookup-insert, IsNodup, append-IsNodup, Bool-cases, inl, inr, ◌≡◌, refl, sym, ap, subst,
  ◌∙◌, arith, if◌then◌else◌,
}
use mathlib.Core.List.{append_assoc, append-nil}
use blast_radius.Python.{
  Value, Items, Fields, null, bool, int, float, str, policy_str, list, dict, nil, cons, end, field,
}
use blast_radius.Models.{TerraformResource, get}
use blast_radius.Rules.Index.{
  add_new, append_at, append_all, listed, ResourceIndex, empty_index, is_role_policy, references_in,
  references_in_items, references_in_fields, references, index_resource, index_all, build,
}

add_new-IsNodup : (found new : List String) → IsNodup found → IsNodup (add_new found new)
unfolding add_new
add_new-IsNodup found [] h = h
add_new-IsNodup found (a ∷ new) h = elim (Bool-cases (elem a found)) [
  | inl e ↦ rw e (add_new-IsNodup found new h)
  | inr e ↦ rw e (add_new-IsNodup (found ++ a ∷ []) new (append-IsNodup found a h e))
]

listed-append_at :
    (k j : String) (r : TerraformResource) (m : List (String × List TerraformResource))
    → listed (lookup j (append_at k r m)) ≡ listed (lookup j m) ++ (if k == j then r ∷ [] else [])
unfolding append_at
listed-append_at k j r m = elim (Bool-cases (k == j)) [
  | inl e ↦ rw (lookup-insert k j (listed (lookup k m) ++ r ∷ []) m, e, (==_iff k j).0 e) refl
  | inr e ↦
      rw (lookup-insert k j (listed (lookup k m) ++ r ∷ []) m, e, append-nil (listed (lookup j m)))
        refl
]

one_or_other :
    (k j : String) (ks : List String) (r : TerraformResource)
    → elem k ks ≡ false
    → (if k == j then r ∷ [] else []) ++ (if elem j ks then r ∷ [] else [])
      ≡ (if elem j (k ∷ ks) then r ∷ [] else [])
one_or_other k j ks r fresh = ground (arith, ==_iff k j, ==_iff j k)

listed-append_all :
    (ks : List String) (j : String) (r : TerraformResource)
    (m : List (String × List TerraformResource))
    → IsNodup ks
    → listed (lookup j (append_all ks r m))
      ≡ listed (lookup j m) ++ (if elem j ks then r ∷ [] else [])
unfolding append_all
listed-append_all [] j r m n = sym (append-nil (listed (lookup j m)))
listed-append_all (k ∷ ks) j r m (fresh, n) =
    listed-append_all ks j r (append_at k r m) n
    ∙ ap (λ x. x ++ (if elem j ks then r ∷ [] else [])) (listed-append_at k j r m)
    ∙ append_assoc (listed (lookup j m)) (if k == j then r ∷ [] else [])
        (if elem j ks then r ∷ [] else [])
    ∙ ap (λ x. listed (lookup j m) ++ x) (one_or_other k j ks r fresh)

kept_first :
    (b : Bool) (r : TerraformResource) (rs : List TerraformResource)
    → (if b then r ∷ [] else []) ++ rs ≡ (if b then r ∷ rs else rs)
kept_first true r rs = refl
kept_first false r rs = refl

-- The resources of a bucket leave the role policies as they are.
other_kinds :
    (acl policy access : Bool) (x : ResourceIndex)
    (add : List (String × List TerraformResource) → List (String × List TerraformResource))
    → (if acl
        then record x { bucket_acls = add x.bucket_acls }
        else if policy
        then record x { bucket_policies = add x.bucket_policies }
        else if access
        then record x { bucket_access_blocks = add x.bucket_access_blocks }
        else x).role_policies
      ≡ x.role_policies
other_kinds true policy access x add = refl
other_kinds false true access x add = refl
other_kinds false false true x add = refl
other_kinds false false false x add = refl

module _ (named : String → List String) where
  mutual
    unfolding references_in

    references_in-IsNodup :
        (found : List String) (v : Value) → IsNodup found → IsNodup (references_in named found v)
    references_in-IsNodup found (policy_str s addresses) h = add_new-IsNodup found addresses h
    references_in-IsNodup found (str s) h = add_new-IsNodup found (named s) h
    references_in-IsNodup found (list vs) h = items-IsNodup found vs h
    references_in-IsNodup found (dict fs) h = fields-IsNodup found fs h
    references_in-IsNodup found null h = h
    references_in-IsNodup found (bool b) h = h
    references_in-IsNodup found (int n) h = h
    references_in-IsNodup found (float t n z) h = h

    items-IsNodup :
        (found : List String) (vs : Items)
        → IsNodup found
        → IsNodup (references_in_items named found vs)
    items-IsNodup found nil h = h
    items-IsNodup found (cons v vs) h =
        items-IsNodup (references_in named found v) vs (references_in-IsNodup found v h)

    fields-IsNodup :
        (found : List String) (fs : Fields)
        → IsNodup found
        → IsNodup (references_in_fields named found fs)
    fields-IsNodup found end h = h
    fields-IsNodup found (field k v fs) h =
        fields-IsNodup (references_in named found v) fs (references_in-IsNodup found v h)

  references-IsNodup : (v : Value) → IsNodup (references named v)
  unfolding references
  references-IsNodup v = references_in-IsNodup [] v tt

  abbrev pub applies : String → TerraformResource → Bool
  applies role r = is_role_policy r && elem role (references named (get r "role"))

  policy_is_not_attached :
      (r : TerraformResource) → (r.type == "aws_iam_policy") ≡ true → is_role_policy r ≡ false
  policy_is_not_attached r e =
      subst (λ t. (t == "aws_iam_role_policy" || t == "aws_iam_role_policy_attachment") ≡ false)
        (sym ((==_iff r.type "aws_iam_policy").0 e)) refl

  indexed :
      (role : String) (r : TerraformResource) (x : ResourceIndex)
      → listed (lookup role (index_resource named r x).role_policies)
        ≡ listed (lookup role x.role_policies) ++ (if applies role r then r ∷ [] else [])
  unfolding index_resource
  indexed role r x = elim (Bool-cases (r.type == "aws_iam_policy")) [
    | inl e ↦
        rw (e, policy_is_not_attached r e, append-nil (listed (lookup role x.role_policies))) refl
    | inr e ↦ elim (Bool-cases (is_role_policy r)) [
      | inl a ↦
          rw (e, a)
            (listed-append_all (references named (get r "role")) role r x.role_policies
              (references-IsNodup (get r "role")))
      | inr a ↦
          rw (e, a, append-nil (listed (lookup role x.role_policies)))
            (ap (λ m. listed (lookup role m))
              (other_kinds (r.type == "aws_s3_bucket_acl") (r.type == "aws_s3_bucket_policy")
                (r.type == "aws_s3_bucket_public_access_block") x
                (append_all (references named (get r "bucket")) r)))
    ]
  ]

  index_all-scan :
      (role : String) (rs : List TerraformResource) (x : ResourceIndex)
      → listed (lookup role (index_all named rs x).role_policies)
        ≡ listed (lookup role x.role_policies) ++ keep (applies role) rs
  unfolding index_all
  index_all-scan role [] x = sym (append-nil (listed (lookup role x.role_policies)))
  index_all-scan role (r ∷ rs) x =
      index_all-scan role rs (index_resource named r x)
      ∙ ap (λ l. l ++ keep (applies role) rs) (indexed role r x)
      ∙ append_assoc (listed (lookup role x.role_policies)) (if applies role r then r ∷ [] else [])
          (keep (applies role) rs)
      ∙ ap (λ l. listed (lookup role x.role_policies) ++ l)
          (kept_first (applies role r) r (keep (applies role) rs))

  -- The index holds for a role, in the order of the config, exactly the role policies and attachments
  -- that a scan of the config finds to name the role.
  pub role_policies-build :
      (role : String) (rs : List TerraformResource)
      → listed (lookup role (build named rs).role_policies) ≡ keep (applies role) rs
  unfolding build
  role_policies-build role rs = index_all-scan role rs empty_index
