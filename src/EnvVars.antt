-- ===== src/EnvVars.antt =====
-- `replaceEnvVars` of caddyfile/parse.go. `Defs` has the functions, `Total` the end
-- of their loop.
pub mod Defs
pub mod Total
mod Tests
