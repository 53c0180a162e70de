-- ===== src/Python/Values.antt =====
-- The values that the parsers produce: JSON and HCL data, with `PolicyString` beside `str`.
-- Of a float the program asks its text, `int(x)` (`none` where that raises) and whether it is zero.
use Prim.Native.String.{String}
use mathlib.Core.Bool.{Bool, true, false}
use mathlib.Core.Option.{Option, none, some}
use mathlib.Core.List.{List, [], ◌∷◌}
use blast_radius.Base.{◌==◌, string_eq, if◌then◌else◌}
use blast_radius.Base.{ℤ}

mutual
  pub data Value : Type 0 where
    null : Value
    bool : Bool → Value
    int : ℤ → Value
    float : String → Option ℤ → Bool → Value
    str : String → Value
    policy_str : String → List String → Value
    list : Items → Value
    dict : Fields → Value

  pub data Items : Type 0 where
    nil : Items
    cons : Value → Items → Items

  pub data Fields : Type 0 where
    end : Fields
    field : String → Value → Fields → Fields

unfoldable pub items_list : Items → List Value
items_list nil = []
items_list (cons v xs) = v ∷ items_list xs

unfoldable pub fields_list : Fields → List (String × Value)
fields_list end = []
fields_list (field k v fs) = (k, v) ∷ fields_list fs

unfoldable pub values_list : Fields → List Value
values_list end = []
values_list (field k v fs) = v ∷ values_list fs

-- `d.get(key, default)`
unfoldable pub field_or : Fields → String → Value → Value
field_or end key default = default
field_or (field k v fs) key default =
    let rest = field_or fs key default in if k == key then v else rest

-- `key in d`
unfoldable pub has_field : Fields → String → Bool
has_field end key = false
has_field (field k v fs) key = let rest = has_field fs key in if k == key then true else rest

abbrev pub items_of : List Value → Items
items_of [] = nil
items_of (v ∷ vs) = cons v (items_of vs)

-- `isinstance(value, str)`, with the text.
abbrev pub text_of : Value → Option String
text_of (str s) = some s
text_of (policy_str s addresses) = some s
text_of _ = none

-- `isinstance(value, dict)`, with the fields.
abbrev pub fields_of : Value → Option Fields
fields_of (dict fs) = some fs
fields_of _ = none

-- the members of a list of values that are texts
unfoldable pub texts : List Value → List String
texts [] = []
texts (str s ∷ vs) = s ∷ texts vs
texts (policy_str s addresses ∷ vs) = s ∷ texts vs
texts (_ ∷ vs) = texts vs
