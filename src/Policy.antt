-- ===== src/Policy.antt =====
-- caddyhttp/proxy/policy.go, `UpstreamHost.Available` of caddyhttp/proxy/proxy.go and
-- `staticUpstream.Select` of caddyhttp/proxy/upstream.go. `Defs` has the functions, the others
-- prove what is selected.
pub mod Defs
pub mod Sampling
pub mod Robin
pub mod Hashing
mod Tests
