-- ===== src/Explain.antt =====
-- blastradius/security/explain.py: the deterministic explanations of paths and changes.
use Prim.Native.Char.{Char, code}
use Prim.Native.String.{String}
use blast_radius.Base.{
  ℕ, zero, suc, ◌-◌, Bool, true, false, Option, none, some, List, [], ◌∷◌, ◌++◌, ◌==◌, any, keep,
  find, ltb, is_empty, not, if◌then◌else◌, map,
}
use blast_radius.Python.{◌+++◌, join, is_upper, codes, starts_with}
use blast_radius.Models.{
  Risk, critical, max_risk, NodeType, ec2, iam_role, s3_bucket, sensitive_data, node_type_eq,
  Relationship, ingress_allows, can_access, relationship_eq, ResourceNode, GraphEdge,
}

-- `path_severity`
unfoldable pub path_severity : List GraphEdge → Bool → Risk
unfolding max_risk
path_severity edges reaches_sensitive =
    if reaches_sensitive then critical else max_risk (map (λ e. e.risk) edges)

-- `reason.lower()`, on the letters A to Z.
unfoldable pub nth_char : String → ℕ → Char → Char
nth_char String.[] i c = c
nth_char (String.◌∷◌ d s) zero c = d
nth_char (String.◌∷◌ d s) (suc i) c = nth_char s i c

lower_char : Char → Char
unfolding nth_char
lower_char c =
    if is_upper (code c) then nth_char "abcdefghijklmnopqrstuvwxyz" (code c - b'A') c else c

unfoldable pub lower_text : String → String
unfolding lower_char
lower_text String.[] = ""
lower_text (String.◌∷◌ c s) = String.◌∷◌ (lower_char c) (lower_text s)

drop_text : ℕ → String → String
drop_text zero s = s
drop_text (suc n) String.[] = ""
drop_text (suc n) (String.◌∷◌ c s) = drop_text n s

-- `reason.split("allows ")[-1]`: what follows the last "allows ". Occurrences cannot overlap.
after_from : String → String → String
unfolding drop_text starts_with
after_from best String.[] = best
after_from best (String.◌∷◌ c s) =
    after_from
      (if starts_with (codes (String.◌∷◌ c s)) (codes "allows ")
        then drop_text 7 (String.◌∷◌ c s)
        else best)
      s

after_allows : String → String
unfolding after_from
after_allows s = after_from s s

abbrev first_of_type : NodeType → List ResourceNode → Option ResourceNode
first_of_type t = find (λ n. n.type == t)

abbrev first_related : Relationship → List GraphEdge → Option GraphEdge
first_related r = find (λ e. e.relationship == r)

entry_of : Option ResourceNode → Option GraphEdge → String
unfolding after_allows
entry_of none ingress = ""
entry_of (some compute) none = ""
entry_of (some compute) (some ingress) =
    compute.name
    +++ " is reachable from the public internet because its security group permits inbound traffic from the whole internet ("
    +++ after_allows ingress.reason
    +++ ")."

unfoldable pub entry_sentence : List ResourceNode → List GraphEdge → String
unfolding entry_of
entry_sentence nodes edges = entry_of (first_of_type ec2 nodes) (first_related ingress_allows edges)

credential_pivot : Option ResourceNode → Option ResourceNode → List String
credential_pivot none compute = []
credential_pivot (some role) none = []
credential_pivot (some role) (some compute) =
    ("An attacker who compromises " +++ compute.name +++ " may obtain credentials for "
      +++ role.name +++ " if instance metadata is accessible.")
    ∷ []

abbrev access_detail : Option GraphEdge → String
unfolding lower_text
access_detail none = ""
access_detail (some access) = " (" +++ lower_text access.reason +++ ")"

bucket_pivot : Option ResourceNode → Option ResourceNode → Option GraphEdge → List String
unfolding lower_text
bucket_pivot none bucket access = []
bucket_pivot (some role) none access = []
bucket_pivot (some role) (some bucket) access =
    ("Modeled IAM grants associate those credentials with "
      +++ bucket.name
      +++ access_detail access
      +++ "; effective authorization and object read access require separate verification.")
    ∷ []

unfoldable pub pivot_sentences : List ResourceNode → List GraphEdge → List String
unfolding credential_pivot bucket_pivot
pivot_sentences nodes edges =
    credential_pivot (first_of_type iam_role nodes) (first_of_type ec2 nodes)
    ++ bucket_pivot (first_of_type iam_role nodes) (first_of_type s3_bucket nodes)
        (first_related can_access edges)

abbrev target_name : Option ResourceNode → String
target_name none = "the target bucket"
target_name (some bucket) = bucket.name

unfoldable pub impact_sentence : List ResourceNode → String
impact_sentence nodes =
    if any (λ n. n.type == sensitive_data) nodes
    then target_name (first_of_type s3_bucket nodes)
      +++ " is tagged as sensitive, so this is a complete path from the internet to a sensitive resource under this model, not proof of data exfiltration."
    else "No resource on this path is marked as holding sensitive data."

abbrev nonempty : String → Bool
nonempty String.[] = false
nonempty (String.◌∷◌ c s) = true

-- `RuleBasedExplainer.explain_path`
unfoldable pub explain_path : List ResourceNode → List GraphEdge → String
unfolding entry_sentence pivot_sentences impact_sentence join
explain_path [] edges = ""
explain_path (n ∷ nodes) edges = join " " (
    keep nonempty (
      entry_sentence (n ∷ nodes) edges ∷ pivot_sentences (n ∷ nodes) edges
      ++ impact_sentence (n ∷ nodes) ∷ []))

unfoldable pub summarize_regression {ℓ} : {A : Type ℓ} → List A → ℕ → ℕ → String
summarize_regression new_paths before_sensitive after_sensitive =
    if ltb before_sensitive after_sensitive
    then "This change increased the blast radius: infrastructure that was previously unreachable from the internet can now be reached, and the path terminates at data marked sensitive. Review the highlighted path before deploying."
    else if ltb after_sensitive before_sensitive
    then "This change reduced the blast radius: sensitive data that was previously reachable from the internet is no longer reachable through the modelled paths."
    else if not (is_empty new_paths)
    then "This change introduced new internet-facing exposure, but no path reaches a resource marked sensitive."
    else "This change did not alter the modelled internet-to-sensitive-data reachability."
