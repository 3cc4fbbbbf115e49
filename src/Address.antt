-- ===== src/Address.antt =====
-- The addresses of sites, of caddyhttp/httpserver/plugin.go.
pub mod Defs
pub mod Convention
pub mod Distinct
mod Tests
