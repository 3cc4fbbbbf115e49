-- ===== src/Iota.antt =====
-- iota/plugin.go: the interceptor of `attachToTangle` calls. `Defs` has the handler and its
-- set-up, `Guards` what the handler lets through to proof of work, `Setup` what is configured.
pub mod Int
pub mod Defs
pub mod Guards
pub mod Setup
mod Tests
