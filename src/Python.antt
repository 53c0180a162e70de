-- ===== src/Python.antt =====
-- The values of the interpreter that the analysis works on, and the built-in operations that it
-- calls on them.
mod Text
mod Values
mod Convert
unfoldable pub use Text.*
unfoldable pub use Values.*
unfoldable pub use Convert.*
