-- ===== src/Dispenser/Tests.antt =====
-- The dispenser at concrete tokens, and its theorems where their hypotheses hold.
use iotacaddy.Prelude.{ℕ, List, [], ◌∷◌, ◌≡◌, refl, codes, arith, text_eq}
use iotacaddy.Lexer.Defs.{Token}
use iotacaddy.Lexer.Words.{token_at}
use iotacaddy.Dispenser.Defs.{
  Dispenser, next, same_line, next_arg, next_line, next_block, args, remaining_args, line_breaks,
}
use iotacaddy.Dispenser.Cursor.{IsValid, Moved, methods-Moved}
use iotacaddy.Dispenser.Args.{remaining_args-line_args}
use iotacaddy.Dispenser.Blocks.{block_vals, block_vals-block}

-- `dir a {`, `b` and `}`, on three lines.

abbrev dir : Token
dir = token_at 1 (codes "dir")

abbrev a : Token
a = token_at 1 (codes "a")

abbrev open_token : Token
open_token = token_at 1 (codes "{")

abbrev b : Token
b = token_at 2 (codes "b")

abbrev close_token : Token
close_token = token_at 3 (codes "}")

abbrev tokens : List Token
tokens = dir ∷ a ∷ open_token ∷ b ∷ close_token ∷ []

-- With the first `n` tokens loaded.
abbrev loaded_to : ℕ → Dispenser
loaded_to n = record { filename = codes "Caddyfile"; tokens = tokens; loaded = n; nesting = 0 }

loaded_to-IsValid : IsValid (loaded_to 1)
loaded_to-IsValid = record { nonempty = omega arith; within = omega arith }

methods-Moved_example :
    Moved (loaded_to 1) (next (loaded_to 1)).0
    × Moved (loaded_to 1) (next_arg (loaded_to 1)).0
    × Moved (loaded_to 1) (next_line (loaded_to 1)).0
    × Moved (loaded_to 1) (next_block (loaded_to 1)).0
    × Moved (loaded_to 1) (args (loaded_to 1) ([] ∷ [])).0
    × Moved (loaded_to 1) (remaining_args (loaded_to 1)).0
methods-Moved_example = methods-Moved (loaded_to 1) ([] ∷ []) loaded_to-IsValid

remaining_args-line_args_example : remaining_args (loaded_to 1) ≡ (loaded_to 2, codes "a" ∷ [])
unfolding same_line line_breaks text_eq
remaining_args-line_args_example = remaining_args-line_args (loaded_to 1) dir refl (omega arith)

block_vals-block_example : block_vals 2 (loaded_to 2) ≡ (loaded_to 5, codes "b" ∷ [])
unfolding same_line line_breaks text_eq
block_vals-block_example =
    block_vals-block 2 (loaded_to 2) a open_token (b ∷ []) close_token [] refl refl refl refl refl
      (refl, tt) refl (omega arith)

-- A block without its closing brace.
abbrev unclosed : Dispenser
unclosed = record { filename = []; tokens = dir ∷ open_token ∷ b ∷ []; loaded = 3; nesting = 1 }
