-- ===== src/Replacer.antt =====
-- caddyhttp/httpserver/replacer.go. `Request` has what is read of a request, `Defs` the values of
-- placeholders, `Template` the text around them; `Body` is about the body that is kept, `Cuts` and
-- `Values` about placeholders in any text, `Plain` and `Render` about those of a template.
pub mod Request
pub mod Defs
pub mod Template
pub mod Body
pub mod Cuts
pub mod Values
pub mod Plain
pub mod Render
mod Tests
