-- ===== src/Rules.antt =====
-- blastradius/security/rules.py: the rule on public ingress, and `as_list` of parser/values.py.
pub mod Ingress
pub mod Index
pub mod Matching
pub mod Iam
pub mod Buckets
pub mod Tags
use Prim.Native.Char.{char}
use blast_radius.Base.{
  ℕ, ℤ, pos, ◌-ℤ◌, leb_ℤ, int_eq, String, Bool, true, false, not, ◌||◌, ◌&&◌, ◌==◌, string_eq,
  list_eq, nat_eq, Option, some, none, List, [], ◌∷◌, ◌++◌, map, elem, keep, concat, is_empty,
  if◌then◌else◌,
}
use blast_radius.Graph.{is_some}
use blast_radius.Python.{
  Value, Items, Fields, null, bool, int, float, str, policy_str, list, dict, items_list, field_or,
  or_else, int_of, str_of, texts, codes, strip, ◌+++◌,
}
use blast_radius.Models.{Risk, medium, high, critical, TerraformResource, get}

-- `as_list`
unfoldable pub as_list : Value → List Value
unfolding items_list
as_list null = []
as_list (list vs) = items_list vs
as_list v = v ∷ []

pub record IngressFinding : Type 0 where
  pub cidr : String
  pub from_port : ℤ
  pub to_port : ℤ
  pub protocol : String
  pub port_label : String
  pub is_admin_port : Bool
  pub is_broad_range : Bool
  pub risk : Risk
  pub reason : String

abbrev is_all : String → Bool
is_all protocol = protocol == "-1" || protocol == "all"

abbrev double_quote : String
double_quote = String.◌∷◌ (char 34 tt) ""

-- `IngressFinding.evidence`
unfoldable pub ingress_evidence : IngressFinding → String
unfolding str_of
ingress_evidence f =
    "ingress { protocol = "
    +++ double_quote
    +++ f.protocol
    +++ double_quote
    +++ ", "
    +++ (if is_all f.protocol
        then "all ports"
        else "from_port = "
          +++ str_of (int f.from_port)
          +++ ", to_port = "
          +++ str_of (int f.to_port))
    +++ ", cidr_blocks = ["
    +++ double_quote
    +++ f.cidr
    +++ double_quote
    +++ "] }"

abbrev pub public_cidrs : List String
public_cidrs = "0.0.0.0/0" ∷ "::/0" ∷ []

-- `is_public_cidr`, on a text.
unfoldable pub is_public_cidr : String → Bool
unfolding strip
is_public_cidr cidr = elem (strip (codes cidr)) (map codes public_cidrs)

unfoldable pub port_label : ℤ → ℤ → String → String
unfolding str_of
port_label from_port to_port protocol =
    if is_all protocol
    then "all protocols/ports"
    else if from_port == to_port
    then (if from_port == pos 22
        then "port " +++ str_of (int from_port) +++ " (SSH)"
        else if from_port == pos 3389
        then "port " +++ str_of (int from_port) +++ " (RDP)"
        else "port " +++ str_of (int from_port))
    else "ports " +++ str_of (int from_port) +++ "-" +++ str_of (int to_port) +++ "/" +++ protocol

-- `_covers_admin_port`
unfoldable pub covers_admin_port : ℤ → ℤ → String → Option ℤ
covers_admin_port from_port to_port protocol =
    if is_all protocol
    then some (pos 22)
    else if not (elem protocol ("tcp" ∷ "udp" ∷ "6" ∷ "17" ∷ []))
    then none
    else if leb_ℤ from_port (pos 22) && leb_ℤ (pos 22) to_port
    then some (pos 22)
    else if leb_ℤ from_port (pos 3389) && leb_ℤ (pos 3389) to_port
    then some (pos 3389)
    else none

unfoldable pub finding_of : ℤ → ℤ → String → String → IngressFinding
unfolding covers_admin_port port_label
finding_of from_port to_port protocol cidr =
    let is_admin = is_some (covers_admin_port from_port to_port protocol) in
    let is_broad = is_all protocol || leb_ℤ (pos 100) (to_port -ℤ from_port) in
    let label = port_label from_port to_port protocol in
    record {
      cidr = cidr;
      from_port = from_port;
      to_port = to_port;
      protocol = protocol;
      port_label = label;
      is_admin_port = is_admin;
      is_broad_range = is_broad;
      risk = if is_admin then critical else if is_broad then high else medium;
      reason = "Security group allows " +++ cidr +++ " on " +++ label;
    }

-- `int(…)` of the two ports; `none` where either raises, and the rule is passed over.
unfoldable pub ports_of : Fields → Option (ℤ × ℤ)
unfolding field_or int_of
ports_of rule = elim (int_of (or_else (field_or rule "from_port" (int (pos 0))) (int (pos 0)))) [
  | none ↦ none
  | some from_port ↦
      elim (int_of (or_else (field_or rule "to_port" (int from_port)) (int from_port))) [
        | none ↦ none
        | some to_port ↦ some (from_port, to_port)
      ]
]

unfoldable pub public_cidrs_of : Fields → List String
unfolding field_or as_list texts is_public_cidr
public_cidrs_of rule =
    keep is_public_cidr (texts (as_list (field_or rule "cidr_blocks" null)))
    ++ keep is_public_cidr (texts (as_list (field_or rule "ipv6_cidr_blocks" null)))

abbrev findings_at : String → List String → Option (ℤ × ℤ) → List IngressFinding
findings_at protocol cidrs none = []
findings_at protocol cidrs (some p) = map (finding_of p.0 p.1 protocol) cidrs

-- One round of the loop over the rules.
unfoldable pub rule_findings : Value → List IngressFinding
unfolding ports_of public_cidrs_of field_or str_of finding_of
rule_findings (dict rule) =
    findings_at (str_of (field_or rule "protocol" (str "tcp"))) (public_cidrs_of rule)
      (ports_of rule)
rule_findings _ = []

unfoldable pub public_ingress_findings : TerraformResource → List IngressFinding
unfolding get as_list rule_findings
public_ingress_findings r = concat (map rule_findings (as_list (get r "ingress")))
