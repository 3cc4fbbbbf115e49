-- ===== src/Json.antt =====
-- caddyfile/json.go. `Defs` has the encoded form of lines and blocks, `Text` the conversions, and
-- `Ends` is about their coming to an end.
pub mod Defs
pub mod Text
pub mod Ends
mod Tests
