-- ===== src/Lexer.antt =====
-- caddyfile/lexer.go, and `allTokens` of caddyfile/parse.go.
-- The reader is the list of the runes that it will return, and how it ends: with `io.EOF`, or
-- with another error. The loop of `next` is `scan`, one rune a round. `Reads` says what a call of
-- `next` consumes, `Comments` what is skipped, `RoundTrip` relates a printed list of tokens to
-- the tokens that are read back.
pub mod Defs
pub mod Reads
pub mod Words
pub mod Comments
pub mod RoundTrip
mod Tests
