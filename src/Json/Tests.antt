-- ===== src/Json/Tests.antt =====
-- The conversions at a concrete server block, and their theorems there.
use iotacaddy.Prelude.{some, List, [], ◌∷◌, map, ◌≡◌, refl, codes, text_eq}
use iotacaddy.Lexer.Words.{token_at}
use iotacaddy.Dispenser.Defs.{next, next_arg, same_line, line_breaks, val}
use iotacaddy.Telemetry.Defs.{lookup}
use iotacaddy.Parser.Defs.{ServerBlock}
use iotacaddy.Json.Defs.{nil, word, block, empty, line, construct_args, construct_block}
use iotacaddy.Json.Text.{
  EncodedServerBlock, directive_lines, body_lines, to_json, needs_quotes, items_text, lines_text,
  from_json,
}
use iotacaddy.Json.Ends.{to_json-Ends}

-- `dir a {`, `b` and `}`, on three lines.
abbrev site : ServerBlock
site = record {
  keys = codes "x" ∷ [];
  tokens =
      (
        codes "dir",
        token_at 1 (codes "dir")
            ∷ token_at 1 (codes "a")
            ∷ token_at 1 (codes "{")
            ∷ token_at 2 (codes "b")
            ∷ token_at 3 (codes "}")
            ∷ [],
      )
      ∷ [];
}

abbrev encoded_site : EncodedServerBlock
encoded_site = record {
  keys = codes "x" ∷ [];
  body =
      line (word (codes "dir") (word (codes "a") (block (line (word (codes "b") nil) empty) nil)))
        empty;
}

site_is_encoded : to_json (λ ks. ks) (site ∷ []) ≡ some (encoded_site ∷ [])
unfolding to_json body_lines directive_lines construct_args construct_block next next_arg same_line
    line_breaks text_eq lookup val
site_is_encoded = refl

site_is_printed : from_json (encoded_site ∷ []) ≡ codes "x {\n\tdir a {\n\t\tb\n\t}\n}"
unfolding from_json items_text lines_text needs_quotes
site_is_printed = refl

-- An empty word is lost in the text.
empty_word_is_lost :
    items_text 1 (word (codes "dir") (word [] (word (codes "a") nil))) ≡ codes "dir  a"
unfolding items_text needs_quotes
empty_word_is_lost = refl

to_json-Ends_example :
    (bs : List EncodedServerBlock) × (to_json (λ ks. ks) (site ∷ []) ≡ some bs)
    × (map (λ b. b.keys) bs ≡ map (λ sb. sb.keys) (site ∷ []))
to_json-Ends_example = to_json-Ends (λ ks. ks) (site ∷ [])
