-- ===== src/Builder/Steps/Whole.antt =====
-- `build_graph` as a whole: what is promised of the graph that it returns.
use blast_radius.Base.{
  ◌≡◌, refl, ◌∙◌, String, Bool, true, false, ==_refl, string_eq, none, List, [], ◌∷◌, All, arith,
  if◌then◌else◌,
}
use blast_radius.Models.{
  ResourceNode, TerraformResource, address, internet_id, ParsedConfig, NodeType, security_group,
  ec2, iam_role, s3_bucket,
}
use blast_radius.Graph.{is_some}
use blast_radius.Digraph.{DiGraph, DiGraphLaws}
use blast_radius.Rules.Index.{build}
use blast_radius.Rules.Tags.{is_sensitive_bucket}
use blast_radius.Builder.{Build, for_each, resource_node, internet_node, data_node}
use blast_radius.Builder.Names.{sensitive_node_id}
use blast_radius.Builder.Steps.{
  Outside, add_node, add_typed, add_bucket, add_resource_nodes, populate, typed,
}
use blast_radius.Builder.Steps.Kept.{for_each-keeps}
use blast_radius.Builder.Steps.Closed.{
  IsClosed, ingress-IsClosed, instances-IsClosed, role_buckets-IsClosed, public_buckets-IsClosed,
  sensitive-IsClosed,
}

module _ {G : Type 0} (x : DiGraph G) (laws : DiGraphLaws x) where
  -- While nodes are added, there is no edge.
  pub record IsBare (s : Build G) : Type 0 where
    pub has : (a : String) → x.has_node s.graph a ≡ is_some (x.node s.graph a)
    pub edge : (a b : String) → x.edge s.graph a b ≡ none
    pub few : x.edge_count s.graph ≡ 0

  abbrev Holds : String → Build G → Type 0
  Holds a s = is_some (x.node s.graph a) ≡ true

  add_node-IsBare : (n : ResourceNode) (s : Build G) → IsBare s → IsBare (add_node x n s)
  unfolding add_node
  add_node-IsBare n s h = record {
    has = λ a. ground (
      arith,
      laws.has_node-add_node s.graph n.id a n,
      laws.node-add_node s.graph n.id a n,
      h.has a,
    );
    edge = λ a b. laws.edge-add_node s.graph n.id a b n ∙ h.edge a b;
    few = laws.edge_count-add_node s.graph n.id n ∙ h.few;
  }

  add_node-Holds :
      (a : String) (n : ResourceNode) (s : Build G) → Holds a s → Holds a (add_node x n s)
  unfolding add_node
  add_node-Holds a n s h = ground (arith, laws.node-add_node s.graph n.id a n)

  add_node-has : (n : ResourceNode) (s : Build G) → Holds n.id (add_node x n s)
  unfolding add_node
  add_node-has n s = rw (laws.node-add_node s.graph n.id n.id n, ==_refl n.id) refl

  abbrev Adds : {A : Type 0} → (A → Build G → Build G) → Type 0
  Adds {A} f =
      ((a : A) (s : Build G) → IsBare s → IsBare (f a s))
      × ((b : String) (a : A) (s : Build G) → Holds b s → Holds b (f a s))

  abbrev anything : {A : Type 0} (l : List A) → All (λ _. Unit {0}) l
  anything [] = tt
  anything (a ∷ l) = (tt, anything l)

  loop-IsBare :
      {A : Type 0} (f : A → Build G → Build G) (l : List A) (s : Build G)
      → Adds f
      → IsBare s
      → IsBare (for_each f l s)
  loop-IsBare f l s w h =
      for_each-keeps IsBare (λ _. Unit {0}) f l s (λ a s q k. w.0 a s k) (anything l) h

  loop-Holds :
      {A : Type 0} (b : String) (f : A → Build G → Build G) (l : List A) (s : Build G)
      → Adds f
      → Holds b s
      → Holds b (for_each f l s)
  loop-Holds b f l s w h =
      for_each-keeps (Holds b) (λ _. Unit {0}) f l s (λ a s q k. w.1 b a s k) (anything l) h

  typed-Adds : (type : NodeType) → Adds (λ r. add_node x (resource_node type false r))
  typed-Adds type = (
    λ r s h. add_node-IsBare (resource_node type false r) s h,
    λ b r s h. add_node-Holds b (resource_node type false r) s h,
  )

  either_way :
      (P : Build G → Type 0) (b : Bool) (s t : Build G)
      → (b ≡ true → P s)
      → (b ≡ false → P t)
      → P (if b then s else t)
  either_way P true s t h k = h refl
  either_way P false s t h k = k refl

  abbrev bucket_node : TerraformResource → ResourceNode
  bucket_node b = resource_node s3_bucket (is_sensitive_bucket b) b

  bucket-Adds : Adds (add_bucket x)
  unfolding add_bucket
  bucket-Adds = (
    λ b s h.
        either_way IsBare (is_sensitive_bucket b) _ _
          (λ e.
            add_node-IsBare (data_node b) (add_node x (bucket_node b) s)
              (add_node-IsBare (bucket_node b) s h))
          (λ e. add_node-IsBare (bucket_node b) s h),
    λ a b s h.
        either_way (Holds a) (is_sensitive_bucket b) _ _
          (λ e.
            add_node-Holds a (data_node b) (add_node x (bucket_node b) s)
              (add_node-Holds a (bucket_node b) s h))
          (λ e. add_node-Holds a (bucket_node b) s h),
  )

  -- After a loop, each member has what its round gives it.
  loop-all :
      {A : Type 0} (R : A → Build G → Type 0) (f : A → Build G → Build G) (l : List A) (s : Build G)
      → ((a : A) (s : Build G) → R a (f a s))
      → ((a b : A) (s : Build G) → R a s → R a (f b s))
      → All (λ a. R a (for_each f l s)) l
  unfolding for_each
  loop-all R f [] s gives keeps = tt
  loop-all R f (a ∷ l) s gives keeps = (
    for_each-keeps (R a) (λ _. Unit {0}) f l (f a s) (λ b s q k. keeps a b s k) (anything l)
        (gives a s),
    loop-all R f l (f a s) gives keeps,
  )

  abbrev Placed : TerraformResource → Build G → Type 0
  Placed r s = Holds (address r) s

  -- A bucket and its data.
  abbrev Stocked : TerraformResource → Build G → Type 0
  Stocked b s =
      Holds (address b) s × (is_sensitive_bucket b ≡ true → Holds (sensitive_node_id (address b)) s)

  bucket-Stocked : (b : TerraformResource) (s : Build G) → Stocked b (add_bucket x b s)
  unfolding add_bucket
  bucket-Stocked b s = (
    either_way (Holds (address b)) (is_sensitive_bucket b) _ _
        (λ e.
          add_node-Holds (address b) (data_node b) (add_node x (bucket_node b) s)
            (add_node-has (bucket_node b) s))
        (λ e. add_node-has (bucket_node b) s),
    λ sensitive.
        either_way (Holds (sensitive_node_id (address b))) (is_sensitive_bucket b) _ _
          (λ e. add_node-has (data_node b) (add_node x (bucket_node b) s)) (λ e. cc),
  )

  typed-all :
      (type : NodeType) (l : List TerraformResource) (s : Build G)
      → All (λ r. Placed r (add_typed x type l s)) l
  unfolding add_typed
  typed-all type l s =
      loop-all Placed (λ r. add_node x (resource_node type false r)) l s
        (λ r s. add_node-has (resource_node type false r) s)
        (λ a b s h. add_node-Holds (address a) (resource_node type false b) s h)

  All-map : {A : Type 0} (P Q : A → Type 0) (l : List A) → ((a : A) → P a → Q a) → All P l → All Q l
  All-map P Q [] f h = tt
  All-map P Q (a ∷ l) f h = (f a h.0, All-map P Q l f h.1)

  module _ (sgs instances roles buckets : List TerraformResource) (s0 : Build G) where
    abbrev s1 : Build G
    s1 = add_node x internet_node s0

    abbrev s2 : Build G
    s2 = add_typed x security_group sgs s1

    abbrev s3 : Build G
    s3 = add_typed x ec2 instances s2

    abbrev s4 : Build G
    s4 = add_typed x iam_role roles s3

    abbrev s5 : Build G
    s5 = add_resource_nodes x sgs instances roles buckets s0

    s4-s5 : (a : String) → Holds a s4 → Holds a s5
    unfolding add_resource_nodes
    s4-s5 a h = loop-Holds a (add_bucket x) buckets s4 bucket-Adds h

    s3-s5 : (a : String) → Holds a s3 → Holds a s5
    unfolding add_typed
    s3-s5 a h = s4-s5 a (loop-Holds a _ roles s3 (typed-Adds iam_role) h)

    s2-s5 : (a : String) → Holds a s2 → Holds a s5
    unfolding add_typed
    s2-s5 a h = s3-s5 a (loop-Holds a _ instances s2 (typed-Adds ec2) h)

    s1-s5 : (a : String) → Holds a s1 → Holds a s5
    unfolding add_typed
    s1-s5 a h = s2-s5 a (loop-Holds a _ sgs s1 (typed-Adds security_group) h)

    s5-IsBare : IsBare s0 → IsBare s5
    unfolding add_resource_nodes add_typed
    s5-IsBare h = loop-IsBare (add_bucket x) buckets s4 bucket-Adds (
        loop-IsBare _ roles s3 (typed-Adds iam_role) (
          loop-IsBare _ instances s2 (typed-Adds ec2) (
            loop-IsBare _ sgs s1 (typed-Adds security_group) (add_node-IsBare internet_node s0 h))))

    s5-internet : Holds internet_id s5
    s5-internet = s1-s5 internet_id (add_node-has internet_node s0)

    s5-sgs : All (λ r. Placed r s5) sgs
    s5-sgs = All-map _ _ sgs (λ r h. s2-s5 (address r) h) (typed-all security_group sgs s1)

    s5-instances : All (λ r. Placed r s5) instances
    s5-instances = All-map _ _ instances (λ r h. s3-s5 (address r) h) (typed-all ec2 instances s2)

    s5-roles : All (λ r. Placed r s5) roles
    s5-roles = All-map _ _ roles (λ r h. s4-s5 (address r) h) (typed-all iam_role roles s3)

    s5-buckets : All (λ b. Stocked b s5) buckets
    unfolding add_resource_nodes
    s5-buckets = loop-all Stocked (add_bucket x) buckets s4 bucket-Stocked (λ a b s h. (
      bucket-Adds.1 (address a) b s h.0,
      λ e. bucket-Adds.1 (sensitive_node_id (address a)) b s (h.1 e),
    ))

    bare-IsClosed : IsBare s0 → IsClosed x laws s5.graph s5
    bare-IsClosed h =
        let b = s5-IsBare h in
        record {
          nodes = λ a. refl;
          has = b.has;
          ends = λ a c e k. absurd (ground (arith, b.edge a c));
          few = omega (arith, b.few);
        }

  pub populate-IsClosed :
      (o : Outside) (c : ParsedConfig) (s : Build G)
      → IsBare s
      → (g0 : G) × IsClosed x laws g0 (populate x o c s) × (is_some (x.node g0 internet_id) ≡ true)
  unfolding populate
  populate-IsClosed o c s h =
      let sgs = typed c "aws_security_group" in
      let instances = typed c "aws_instance" in
      let roles = typed c "aws_iam_role" in
      let profiles = typed c "aws_iam_instance_profile" in
      let buckets = typed c "aws_s3_bucket" in
      let index = build o.named c.resources in
      let t = add_resource_nodes x sgs instances roles buckets s in
      let i = s5-internet sgs instances roles buckets s in
      let stocked = s5-buckets sgs instances roles buckets s in
      let c1 =
        ingress-IsClosed x laws t.graph sgs t i (s5-sgs sgs instances roles buckets s)
          (bare-IsClosed sgs instances roles buckets s h) in
      let c2 =
        instances-IsClosed x laws t.graph o profiles instances _
          (s5-instances sgs instances roles buckets s) c1 in
      let c3 =
        role_buckets-IsClosed x laws t.graph o roles buckets index _
          (s5-roles sgs instances roles buckets s) c2 in
      let c4 =
        public_buckets-IsClosed x laws t.graph o buckets index _ i
          (All-map _ _ buckets (λ b k. k.0) stocked) c3 in
      (t.graph, sensitive-IsClosed x laws t.graph buckets _ stocked c4, i)
