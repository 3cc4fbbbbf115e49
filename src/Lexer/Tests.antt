-- ===== src/Lexer/Tests.antt =====
-- The lexer at concrete inputs, and its theorems where their hypotheses hold.
use iotacaddy.Prelude.{some, List, [], ◌∷◌, ◌≡◌, refl, codes, arith, All}
use iotacaddy.Lexer.Defs.{
  eof, failure, Reader, load, is_space, round, scan, next, lexed, crashed, read_all, all_tokens,
}
use iotacaddy.Lexer.Words.{token_at}
use iotacaddy.Lexer.Reads.{AllEnds, all_tokens-Ends}
use iotacaddy.Lexer.RoundTrip.{
  Item, IsItem, blank, comment, word, quoted, render, all_tokens-render,
}

abbrev input : Reader
input = record { runes = codes "host:80 { # c\n\tdir \"a b\\\"\"\n}\n"; ending = eof }

lexes_input :
    all_tokens input
    ≡ some (
        lexed (
          token_at 1 (codes "host:80")
          ∷ token_at 1 (codes "{")
          ∷ token_at 2 (codes "dir")
          ∷ token_at 2 (codes "a b\"")
          ∷ token_at 3 (codes "}")
          ∷ []))
unfolding all_tokens load read_all next scan round
lexes_input = refl

leaks_comment :
    all_tokens (record { runes = codes "dir#a note\n"; ending = eof })
    ≡ some (lexed (token_at 1 (codes "dir") ∷ token_at 1 (codes "note") ∷ []))
unfolding all_tokens load read_all next scan round
leaks_comment = refl

fails : all_tokens (record { runes = codes "a"; ending = failure }) ≡ some crashed
unfolding all_tokens load read_all next scan round
fails = refl

abbrev items : List Item
items =
    word b'd' (codes "ir") b' '
    ∷ quoted (codes "a \"b\n")
    ∷ blank b'\n'
    ∷ comment (codes " note")
    ∷ word b'}' [] b'\n'
    ∷ []

items-IsItem : All IsItem items
unfolding is_space
items-IsItem = ground arith

all_tokens-render_example :
    all_tokens (record { runes = render items; ending = eof })
    ≡ some (
        lexed
          (token_at 1 (codes "dir") ∷ token_at 1 (codes "a \"b\n") ∷ token_at 4 (codes "}") ∷ []))
all_tokens-render_example = all_tokens-render items items-IsItem refl

all_tokens-Ends_example : AllEnds eof (all_tokens input)
all_tokens-Ends_example = all_tokens-Ends input
