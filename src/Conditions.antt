-- ===== src/Conditions.antt =====
-- caddyhttp/httpserver/condition.go: the `if` conditions of directives. `Defs` has the functions,
-- `Operators` is about the tests of two texts, `Meaning` about the truth of conditions, `Configured`
-- about what the set-up returns.
pub mod Defs
pub mod Operators
pub mod Meaning
pub mod Configured
mod Tests
