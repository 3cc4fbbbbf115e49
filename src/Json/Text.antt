-- ===== src/Json/Text.antt =====
-- `ToJSON`, `FromJSON` and `jsonToText` of caddyfile/json.go.
use iotacaddy.Prelude.{
  ℕ, zero, suc, ◌+◌, ◌-◌, Bool, true, false, ◌||◌, Option, none, some, List, [], ◌∷◌, ◌++◌, map,
  ◌==◌, if◌then◌else◌, Text, codes, length, replicate,
}
use iotacaddy.EnvVars.Defs.{replace}
use iotacaddy.Lexer.Defs.{Token}
use iotacaddy.Dispenser.Defs.{Dispenser, new_dispenser_tokens, next, val}
use iotacaddy.Telemetry.Defs.{lookup}
use iotacaddy.Parser.Defs.{ServerBlock}
use iotacaddy.Json.Defs.{Items, nil, word, literal, block, Lines, empty, line, construct_args}

-- `EncodedServerBlock`.
pub record EncodedServerBlock : Type 0 where
  pub keys : List Text
  pub body : Lines

-- The loop over the lines of a directive, in front of the lines of the directives behind it.
abbrev pub on_rest : Items → Option Lines → Option Lines
on_rest is none = none
on_rest is (some ls) = some (line is ls)

abbrev pub on_items : (Dispenser → Option Lines) → Text → Option (Items × Dispenser) → Option Lines
on_items more w none = none
on_items more w (some (is, d)) = on_rest (word w is) (more d)

abbrev pub on_next :
    (Dispenser → Option Lines)
    → (Dispenser → Option (Items × Dispenser))
    → Lines
    → Dispenser × Bool
    → Option Lines
on_next more items rest (d, false) = some rest
on_next more items rest (d, true) = on_items more (val d) (items d)

unfoldable pub directive_lines : ℕ → Dispenser → Lines → Option Lines
directive_lines zero d rest = none
directive_lines (suc f) d rest =
    on_next (λ d'. directive_lines f d' rest) (λ d'. construct_args f d') rest (next d)

abbrev pub tokens_of : Option (List Token) → List Token
tokens_of none = []
tokens_of (some ts) = ts

-- The fuel is the number of tokens and one more.
abbrev pub lines_of : List Token → Lines → Option Lines
lines_of ts rest =
    directive_lines (suc (length ts)) (new_dispenser_tokens (codes "Caddyfile") ts) rest

unfoldable pub body_lines : ServerBlock → List Text → Option Lines
body_lines sb [] = some empty
body_lines sb (dir ∷ dirs) = elim (body_lines sb dirs) [
  | none ↦ none
  | some rest ↦ lines_of (tokens_of (lookup dir sb.tokens)) rest
]

-- The names are appended to as many empty ones, and sorted by `sort.Strings`.
abbrev pub directives : (List Text → List Text) → ServerBlock → List Text
directives sort sb = sort (replicate (length sb.tokens) [] ++ map (λ p. p.0) sb.tokens)

abbrev pub encoded : List Text → Option Lines → Option EncodedServerBlock
encoded keys none = none
encoded keys (some ls) = some (record { keys = keys; body = ls })

abbrev pub encode_block : (List Text → List Text) → ServerBlock → Option EncodedServerBlock
encode_block sort sb = encoded sb.keys (body_lines sb (directives sort sb))

abbrev pub in_front :
    Option EncodedServerBlock → Option (List EncodedServerBlock) → Option (List EncodedServerBlock)
in_front (some b) (some bs) = some (b ∷ bs)
in_front _ _ = none

-- `ToJSON` behind the parser.
unfoldable pub to_json :
    (List Text → List Text) → List ServerBlock → Option (List EncodedServerBlock)
to_json sort [] = some []
to_json sort (sb ∷ sbs) = in_front (encode_block sort sb) (to_json sort sbs)

-- `jsonToText`.
unfoldable pub needs_quotes : Text → Bool
needs_quotes [] = false
needs_quotes (c ∷ s) =
    c == b'"' || (c == b' ' || (c == 10 || (c == 9 || (c == 13 || needs_quotes s))))

abbrev pub quote : Text → Text
quote w =
    if needs_quotes w then b'"' ∷ (replace w (codes "\"") (codes "\\\"") ++ (b'"' ∷ [])) else w

abbrev pub tabs : ℕ → Text
tabs n = replicate n 9

abbrev pub space_before : Items → Text
space_before nil = []
space_before _ = b' ' ∷ []

unfoldable mutual
  pub items_text : ℕ → Items → Text
  items_text depth nil = []
  items_text depth (word w is) = quote w ++ (space_before is ++ items_text depth is)
  items_text depth (literal t is) = t ++ (space_before is ++ items_text depth is)
  items_text depth (block ls is) =
      b'{' ∷ 10 ∷ (lines_text depth ls ++ (tabs (depth - 1) ++ (b'}' ∷ items_text depth is)))

  pub lines_text : ℕ → Lines → Text
  lines_text depth empty = []
  lines_text depth (line is ls) =
      tabs depth ++ (items_text (depth + 1) is ++ (10 ∷ lines_text depth ls))

abbrev pub body_text : Lines → Text
body_text ls = b' ' ∷ b'{' ∷ 10 ∷ (lines_text 1 ls ++ (b'}' ∷ []))

abbrev pub keys_text : List Text → Text
keys_text [] = []
keys_text (k ∷ []) = k
keys_text (k ∷ j ∷ ks) = k ++ (b',' ∷ b' ' ∷ keys_text (j ∷ ks))

abbrev pub block_text : EncodedServerBlock → Text
block_text b = keys_text b.keys ++ body_text b.body

-- `FromJSON` behind the decoder.
unfoldable pub from_json : List EncodedServerBlock → Text
from_json [] = []
from_json (b ∷ []) = block_text b
from_json (b ∷ c ∷ bs) = block_text b ++ (10 ∷ 10 ∷ from_json (c ∷ bs))
