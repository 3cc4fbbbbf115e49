-- ===== src/Parser.antt =====
-- The parser of caddyfile/parse.go. `World` is what it asks of the operating system, `Result` what
-- a method returns, `Import` reads files and snippets, `Defs` has the methods, `Valid` is about the
-- check of directives.
pub mod Result
pub mod World
pub mod Import
pub mod Defs
pub mod Valid
mod Tests
