-- ===== src/Proxy.antt =====
-- The handler of the reverse proxy, of caddyhttp/proxy/proxy.go.
pub mod Defs
pub mod Match
pub mod Counts
pub mod Answers
mod Tests
