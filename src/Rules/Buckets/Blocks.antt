-- ===== src/Rules/Buckets/Blocks.antt =====
-- What a public access block does to the findings on its bucket.
use blast_radius.Base.{
  ◌≡◌, refl, String, Bool, true, List, [], ◌∷◌, all, all-append, lookup, Bool-cases, inl, inr,
  arith, string_eq,
}
use blast_radius.Python.{Value, Fields, has_field}
use blast_radius.Models.{TerraformResource, address, get}
use blast_radius.Policies.{Readers, policy_statements, parse_policy_document}
use blast_radius.Rules.Index.{ResourceIndex, listed}
use blast_radius.Rules.Matching.{Patterns}
use blast_radius.Rules.Buckets.{
  PublicBucketFinding, flag, acl_findings, all_acl_findings, acl_sources, opens_bucket,
  statements_open, policies_open, public_bucket_findings, bucket_public_access_block,
}

abbrev conditional : PublicBucketFinding → Bool
conditional f = f.conditional

no_acl_finding :
    (controls : List (String × Bool)) (owner : String) (v : Value)
    → flag "ignore_public_acls" controls ≡ true
    → acl_findings controls owner v ≡ []
unfolding acl_findings
no_acl_finding controls owner v h = ground (arith)

no_acl_findings :
    (controls : List (String × Bool)) (sources : List (String × Value))
    → flag "ignore_public_acls" controls ≡ true
    → all_acl_findings controls sources ≡ []
unfolding all_acl_findings
no_acl_findings controls [] h = refl
no_acl_findings controls ((owner, v) ∷ sources) h =
    rw (no_acl_finding controls owner v h) (no_acl_findings controls sources h)

module _ (m : Patterns) (r : Readers) (bucket : TerraformResource) (controls : List (String × Bool))
    (restricted : flag "restrict_public_buckets" controls ≡ true) where
  opens-conditional :
      (s : Fields) → opens_bucket m r bucket controls s ≡ true → has_field s "Condition" ≡ true
  unfolding opens_bucket
  opens-conditional s h = ground arith

  statements-conditional :
      (owner : String) (ss : List Fields)
      → all conditional (statements_open m r bucket controls owner ss) ≡ true
  unfolding statements_open
  statements-conditional owner [] = refl
  statements-conditional owner (s ∷ ss) = elim (Bool-cases (opens_bucket m r bucket controls s)) [
    | inl e ↦ rw (e, opens-conditional s e) (statements-conditional owner ss)
    | inr e ↦ rw e (statements-conditional owner ss)
  ]

  policies-conditional :
      (ps : List TerraformResource) → all conditional (policies_open m r bucket controls ps) ≡ true
  unfolding policies_open
  policies-conditional [] = refl
  policies-conditional (p ∷ ps) =
      rw
        (
          all-append conditional
              (statements_open m r bucket controls (address p)
                (policy_statements (parse_policy_document r (get p "policy"))))
              (policies_open m r bucket controls ps),
          statements-conditional (address p)
              (policy_statements (parse_policy_document r (get p "policy"))),
        )
        (policies-conditional ps)

-- Where the only access block of a bucket ignores public ACLs and restricts public buckets, the
-- bucket has no finding but those whose policy statement has a condition.
pub public_bucket_findings-blocked :
    (m : Patterns) (r : Readers) (bucket : TerraformResource) (index : ResourceIndex)
    → flag "ignore_public_acls" (bucket_public_access_block bucket index) ≡ true
    → flag "restrict_public_buckets" (bucket_public_access_block bucket index) ≡ true
    → all (λ f. f.conditional) (public_bucket_findings m r bucket index) ≡ true
unfolding public_bucket_findings
public_bucket_findings-blocked m r bucket index ignored restricted =
    let controls = bucket_public_access_block bucket index in
    rw (no_acl_findings controls (acl_sources bucket index) ignored) (
      policies-conditional m r bucket controls restricted
        (listed (lookup (address bucket) index.bucket_policies)))
