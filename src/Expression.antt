-- ===== src/Expression.antt =====
-- blastradius/parser/expression.py: the reader of serialized expressions. Lexer has the texts, the
-- identifiers, strings and calls; Reader the values, and `evaluate_expression`. A text is its code
-- points. `traversal_addresses` and the match of a whole AWS traversal are regular expressions, and
-- parameters; a number is kept as its text. Digits are 0 to 9.
pub mod Lexer
pub mod Reader
pub mod Shrinks
pub mod Ends
pub mod Sizes
pub mod Total
pub mod Quoted
pub mod Written
pub mod Leaves
pub mod Steps
pub mod RoundTrip
