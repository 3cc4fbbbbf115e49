-- ===== src/VHost.antt =====
-- caddyhttp/httpserver/vhosttrie.go. `Defs` has the trie, `Paths` what is found below a host,
-- `Hosts` which host is found.
pub mod Defs
pub mod Paths
pub mod Hosts
pub mod Sites
mod Tests
