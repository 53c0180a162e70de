-- ===== src/Examples/Reading.antt =====
-- Concrete inputs of the reader of expressions, where every reference is its own address.
use blast_radius.Base.{◌≤◌, Bool, true, List, [], ◌∷◌}
use blast_radius.Python.{codes}
use blast_radius.Expression.Lexer.{Text}
use blast_radius.Expression.Reader.{
  Datum, bool, number, policy_string, list, object, nil, cons, end, entry, evaluate_expression,
}
use blast_radius.Expression.Shrinks.{Ensures}
use blast_radius.Expression.Total.{evaluate_expression-ends}
use blast_radius.Expression.Sizes.{size, depth}

abbrev is_traversal : Text → Bool
is_traversal s = true

abbrev addresses : Text → List Text
addresses s = s ∷ []

abbrev text : Text
text = codes "{ports = [22, 443] name = \"${aws_vpc.main.id}\"}"

evaluate_expression-ends_example :
    Ensures
      (λ (p : Datum × List Text). (size p.0 ≤ 2000) × (depth p.0 ≤ 64))
      (evaluate_expression is_traversal addresses text)
evaluate_expression-ends_example = evaluate_expression-ends is_traversal addresses text

abbrev rule : Datum
rule = object (
    entry (codes "ports") (list (cons (number (codes "22")) (cons (number (codes "443")) nil))) (
      entry (codes "cost $") (policy_string (codes "\"5\"") [])
        (entry (codes "self") (bool true) end)))
