-- ===== src/Fcgi.antt =====
-- The records of caddyhttp/fastcgi/fcgiclient.go. `Defs` writes and reads them, `Records` is about
-- one record, `Streams` about the records of a stream, `Demux` about the two streams of an answer,
-- `Pairs` about parameters.
pub mod Defs
pub mod Records
pub mod Streams
pub mod Demux
pub mod Pairs
mod Tests
