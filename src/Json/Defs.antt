-- ===== src/Json/Defs.antt =====
-- The conversions of caddyfile/json.go between the blocks of a Caddyfile, their encoded form and
-- text. JSON itself is left out: a line is a list of words, blocks, and numbers or Booleans as they
-- print. `none` is the end of the fuel.
use iotacaddy.Prelude.{
  ℕ, zero, suc, Bool, true, false, Option, none, some, if◌then◌else◌, Text, codes, text_eq,
}
use iotacaddy.Dispenser.Defs.{Dispenser, next, next_arg, val}

mutual
  -- The elements of a line, and the lines of a block.
  pub data Items : Type 0 where
    nil : Items
    word : Text → Items → Items
    literal : Text → Items → Items
    block : Lines → Items → Items

  pub data Lines : Type 0 where
    empty : Lines
    line : Items → Lines → Lines

abbrev pub with_word : Text → Option (Items × Dispenser) → Option (Items × Dispenser)
with_word w none = none
with_word w (some (is, d)) = some (word w is, d)

abbrev pub with_block : Lines → Option (Items × Dispenser) → Option (Items × Dispenser)
with_block b none = none
with_block b (some (is, d)) = some (block b is, d)

abbrev pub with_line : Items → Option (Lines × Dispenser) → Option (Lines × Dispenser)
with_line is none = none
with_line is (some (ls, d)) = some (line is ls, d)

abbrev pub after_block :
    (Dispenser → Option (Items × Dispenser))
    → Option (Lines × Dispenser)
    → Option (Items × Dispenser)
after_block items none = none
after_block items (some (b, d)) = with_block b (items d)

abbrev pub after_line :
    (Dispenser → Option (Lines × Dispenser))
    → Text
    → Option (Items × Dispenser)
    → Option (Lines × Dispenser)
after_line lines w none = none
after_line lines w (some (is, d)) = with_line (word w is) (lines d)

-- A round of the loop of `constructLine`, and one of that of `constructBlock`.
abbrev pub on_arg :
    (Dispenser → Option (Items × Dispenser))
    → (Dispenser → Option (Lines × Dispenser))
    → Dispenser × Bool
    → Option (Items × Dispenser)
on_arg items lines (d, false) = some (nil, d)
on_arg items lines (d, true) =
    if text_eq (val d) (codes "{") then after_block items (lines d) else with_word (val d) (items d)

abbrev pub on_token :
    (Dispenser → Option (Items × Dispenser))
    → (Dispenser → Option (Lines × Dispenser))
    → Dispenser × Bool
    → Option (Lines × Dispenser)
on_token items lines (d, false) = some (empty, d)
on_token items lines (d, true) =
    if text_eq (val d) (codes "}") then some (empty, d) else after_line lines (val d) (items d)

unfoldable mutual
  pub construct_args : ℕ → Dispenser → Option (Items × Dispenser)
  construct_args zero d = none
  construct_args (suc f) d =
      on_arg (λ d'. construct_args f d') (λ d'. construct_block f d') (next_arg d)

  pub construct_block : ℕ → Dispenser → Option (Lines × Dispenser)
  construct_block zero d = none
  construct_block (suc f) d =
      on_token (λ d'. construct_args f d') (λ d'. construct_block f d') (next d)

-- `constructLine`, whose first word is the current token.
abbrev pub construct_line : ℕ → Dispenser → Option (Items × Dispenser)
construct_line f d = with_word (val d) (construct_args f d)
