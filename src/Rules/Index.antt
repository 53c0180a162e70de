-- ===== src/Rules/Index.antt =====
-- `references` of blastradius/parser/values.py, and `ResourceIndex` and `role_policy_sources` of
-- blastradius/security/rules.py. What the regular expression of `references` finds in a text is a
-- parameter, `named`.
pub mod Scan
use blast_radius.Base.{
  String, Bool, true, false, ◌==◌, ◌||◌, ◌&&◌, string_eq, Option, some, none, List, [], ◌∷◌, ◌++◌,
  map, elem, lookup, insert, concat, if◌then◌else◌,
}
use blast_radius.Python.{
  Value, Items, Fields, null, bool, int, float, str, policy_str, list, dict, nil, cons, end, field,
}
use blast_radius.Models.{TerraformResource, address, get}

-- `found.extend(a for a in new if a not in found)`
unfoldable pub add_new : List String → List String → List String
add_new found [] = found
add_new found (a ∷ new) = add_new (if elem a found then found else found ++ a ∷ []) new

-- `d.setdefault(k, v)`
unfoldable pub set_default {ℓ} : {V : Type ℓ} → String → V → List (String × V) → List (String × V)
set_default k v m = elim (lookup k m) [ none ↦ insert k v m | some w ↦ m ]

abbrev pub listed {ℓ} : {V : Type ℓ} → Option (List V) → List V
listed none = []
listed (some vs) = vs

-- `d.setdefault(k, []).append(v)`
unfoldable pub append_at {ℓ} :
    {V : Type ℓ} → String → V → List (String × List V) → List (String × List V)
append_at k v m = insert k (listed (lookup k m) ++ v ∷ []) m

-- `for k in ks: d.setdefault(k, []).append(v)`
unfoldable pub append_all {ℓ} :
    {V : Type ℓ} → List String → V → List (String × List V) → List (String × List V)
unfolding append_at
append_all [] v m = m
append_all (k ∷ ks) v m = append_all ks v (append_at k v m)

pub record ResourceIndex : Type 0 where
  pub managed_policies : List (String × TerraformResource)
  pub role_policies : List (String × List TerraformResource)
  pub bucket_acls : List (String × List TerraformResource)
  pub bucket_policies : List (String × List TerraformResource)
  pub bucket_access_blocks : List (String × List TerraformResource)

abbrev pub empty_index : ResourceIndex
empty_index = record {
  managed_policies = [];
  role_policies = [];
  bucket_acls = [];
  bucket_policies = [];
  bucket_access_blocks = [];
}

abbrev pub is_role_policy : TerraformResource → Bool
is_role_policy r = r.type == "aws_iam_role_policy" || r.type == "aws_iam_role_policy_attachment"

module _ (named : String → List String) where
  -- The stack of pending values is visited in the order of the values: each value before the next,
  -- the members of a list or a mapping in their place.
  unfoldable mutual
    unfolding add_new

    pub references_in : List String → Value → List String
    references_in found (policy_str s addresses) = add_new found addresses
    references_in found (str s) = add_new found (named s)
    references_in found (list vs) = references_in_items found vs
    references_in found (dict fs) = references_in_fields found fs
    references_in found null = found
    references_in found (bool b) = found
    references_in found (int n) = found
    references_in found (float t n z) = found

    pub references_in_items : List String → Items → List String
    references_in_items found nil = found
    references_in_items found (cons v vs) = references_in_items (references_in found v) vs

    pub references_in_fields : List String → Fields → List String
    references_in_fields found end = found
    references_in_fields found (field k v fs) = references_in_fields (references_in found v) fs

  unfoldable pub references : Value → List String
  unfolding references_in
  references v = references_in [] v

  -- One round of the loop of `ResourceIndex.build`.
  unfoldable pub index_resource : TerraformResource → ResourceIndex → ResourceIndex
  unfolding references get address set_default append_all
  index_resource r x =
      if r.type == "aws_iam_policy"
      then record x { managed_policies = set_default (address r) r x.managed_policies }
      else if is_role_policy r
      then record x { role_policies = append_all (references (get r "role")) r x.role_policies }
      else if r.type == "aws_s3_bucket_acl"
      then record x { bucket_acls = append_all (references (get r "bucket")) r x.bucket_acls }
      else if r.type == "aws_s3_bucket_policy"
      then record x {
        bucket_policies = append_all (references (get r "bucket")) r x.bucket_policies;
      }
      else if r.type == "aws_s3_bucket_public_access_block"
      then record x {
        bucket_access_blocks = append_all (references (get r "bucket")) r x.bucket_access_blocks;
      }
      else x

  unfoldable pub index_all : List TerraformResource → ResourceIndex → ResourceIndex
  unfolding index_resource
  index_all [] x = x
  index_all (r ∷ rs) x = index_all rs (index_resource r x)

  -- `ResourceIndex.build`
  unfoldable pub build : List TerraformResource → ResourceIndex
  unfolding index_all
  build rs = index_all rs empty_index

  abbrev managed_source : Option TerraformResource → List (String × Value)
  managed_source none = []
  managed_source (some m) = (address m, get m "policy") ∷ []

  unfoldable pub sources_of : ResourceIndex → TerraformResource → List (String × Value)
  unfolding references get address
  sources_of x r =
      if r.type == "aws_iam_role_policy"
      then (address r, get r "policy") ∷ []
      else concat (
          map (λ a. managed_source (lookup a x.managed_policies)) (references (get r "policy_arn")))

  -- `role_policy_sources`, with a prebuilt index.
  unfoldable pub role_policy_sources : String → ResourceIndex → List (String × Value)
  unfolding sources_of
  role_policy_sources role x = concat (map (sources_of x) (listed (lookup role x.role_policies)))

  unfoldable pub role_policy_documents : String → ResourceIndex → List Value
  unfolding role_policy_sources
  role_policy_documents role x = map (λ s. s.1) (role_policy_sources role x)
