-- ===== src/Mitm.antt =====
-- The detection of intercepted TLS connections, of caddyhttp/httpserver/mitm.go.
pub mod Wire
pub mod Defs
pub mod Looks
pub mod Handler
pub mod Bounds
pub mod Order
pub mod Panics
pub mod Extensions
pub mod RoundTrip
pub mod Conn
mod Tests
