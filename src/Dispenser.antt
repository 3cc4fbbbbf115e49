-- ===== src/Dispenser.antt =====
-- caddyfile/dispenser.go. `Defs` has the operations, `Cursor` what each does to the cursor,
-- `Lines` how the tokens of a line are told from those of the next, `Args` the arguments of a
-- line, `Blocks` the walk through a block.
pub mod Defs
pub mod Cursor
pub mod Lines
pub mod Args
pub mod Blocks
mod Tests
