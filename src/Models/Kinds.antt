-- ===== src/Models/Kinds.antt =====
-- `NodeType` and `Relationship` of blastradius/parser/models.py.
use blast_radius.Base.{ℕ, ◌≡◌, ◌↔◌, Bool, true, arith, Eq, nat_beq}

pub data NodeType : Type 0 where
  internet security_group ec2 iam_role s3_bucket sensitive_data : NodeType

pub data Relationship : Type 0 where
  ingress_allows public_access protects assumes_role can_access contains : Relationship

abbrev pub node_type_tag : NodeType → ℕ
node_type_tag internet = 0
node_type_tag security_group = 1
node_type_tag ec2 = 2
node_type_tag iam_role = 3
node_type_tag s3_bucket = 4
node_type_tag sensitive_data = 5

abbrev pub relationship_tag : Relationship → ℕ
relationship_tag ingress_allows = 0
relationship_tag public_access = 1
relationship_tag protects = 2
relationship_tag assumes_role = 3
relationship_tag can_access = 4
relationship_tag contains = 5

abbrev pub node_type_beq : NodeType → NodeType → Bool
node_type_beq a b = nat_beq (node_type_tag a) (node_type_tag b)

pub node_type_beq_iff : (a b : NodeType) → (node_type_beq a b ≡ true) ↔ (a ≡ b)
node_type_beq_iff a b = ground arith

instance abbrev pub node_type_eq : Eq NodeType
node_type_eq = record { beq = node_type_beq; beq_iff = node_type_beq_iff }

abbrev pub relationship_beq : Relationship → Relationship → Bool
relationship_beq a b = nat_beq (relationship_tag a) (relationship_tag b)

pub relationship_beq_iff : (a b : Relationship) → (relationship_beq a b ≡ true) ↔ (a ≡ b)
relationship_beq_iff a b = ground arith

instance abbrev pub relationship_eq : Eq Relationship
relationship_eq = record { beq = relationship_beq; beq_iff = relationship_beq_iff }
