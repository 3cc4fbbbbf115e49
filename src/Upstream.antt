-- ===== src/Upstream.antt =====
-- The upstreams that the proxy directive configures, of caddyhttp/proxy/upstream.go.
pub mod Ports
pub mod Defs
pub mod Setup
pub mod Health
pub mod Ready
pub mod Limits
pub mod Probes
mod Tests
