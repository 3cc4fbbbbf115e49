-- ===== src/Lexer/Defs.antt =====
-- The lexer of caddyfile/lexer.go.
use iotacaddy.Prelude.{
  ℕ, zero, suc, ◌+◌, Bool, true, false, not, ◌&&◌, ◌||◌, Option, none, some, List, [], ◌∷◌, ◌++◌,
  leb, ◌==◌, if◌then◌else◌, Text, length,
}

pub record Token : Type 0 where
  pub file : Text
  pub line : ℕ
  pub text : Text

-- How the reader ends.
pub data ReadEnd : Type 0 where
  eof failure : ReadEnd

pub record Reader : Type 0 where
  pub runes : Text
  pub ending : ReadEnd

pub record Lexer : Type 0 where
  pub reader : Reader
  pub token : Token
  pub line : ℕ

abbrev pub no_token : Token
no_token = record { file = []; line = 0; text = [] }

abbrev pub byte_order_mark : ℕ
byte_order_mark = 0xFEFF

skip_mark : Text → Text
skip_mark [] = []
skip_mark (c ∷ cs) = if c == byte_order_mark then cs else c ∷ cs

-- `new(lexer)` followed by `load`; an empty input is an error, the reader's own.
unfoldable pub load : Reader → Option Lexer
unfolding skip_mark
load r = elim r.runes [
  | [] ↦ none
  | c ∷ cs ↦
      some (record { reader = record r { runes = skip_mark (c ∷ cs) }; token = no_token; line = 1 })
]

-- `unicode.IsSpace`.
unfoldable pub is_space : ℕ → Bool
is_space c =
    (leb b'\t' c && leb c b'\r')
    || c == b' '
    || c == 0x85
    || c == 0xA0
    || c == 0x1680
    || (leb 0x2000 c && leb c 0x200A)
    || c == 0x2028
    || c == 0x2029
    || c == 0x202F
    || c == 0x205F
    || c == 0x3000

-- The variables of `next`: its locals, and the fields of the lexer that its loop writes.
pub record Scan : Type 0 where
  pub val : Text
  pub comment : Bool
  pub quoted : Bool
  pub escaped : Bool
  pub token : Token
  pub line : ℕ

-- One round of the loop goes on, or makes a token.
pub data Round : Type 0 where
  loop : Scan → Round
  make : Scan → Round

abbrev pub is_nil : Text → Bool
is_nil [] = true
is_nil (_ ∷ _) = false

abbrev newline : ℕ → Scan → Scan
newline ch s = if ch == b'\n' then record s { line = s.line + 1 } else s

-- The end of the `quoted` branch: the rune is appended, after a backslash that escaped nothing.
unfoldable pub quoted_rune : ℕ → Scan → Scan
quoted_rune ch s =
    let s' = newline ch s in
    let val' = if s.escaped && not (ch == b'"') then s.val ++ (b'\\' ∷ []) else s.val in
    record s' { val = val' ++ (ch ∷ []); escaped = false }

unfoldable pub quoted_round : ℕ → Scan → Round
unfolding quoted_rune
quoted_round ch s =
    if not s.escaped && ch == b'\\'
    then loop (record s { escaped = true })
    else if not s.escaped && ch == b'"'
    then make (record s { quoted = false })
    else loop (quoted_rune ch s)

unfoldable pub space_round : ℕ → Scan → Round
space_round ch s =
    if ch == b'\r'
    then loop s
    else let s' = if ch == b'\n' then record s { line = s.line + 1; comment = false } else s in
      if is_nil s.val then loop s' else make s'

-- From the test of `#` on, for a rune that is no space.
unfoldable pub word_round : ℕ → Scan → Round
word_round ch s =
    let comment' = s.comment || ch == b'#' in
    if comment'
    then loop (record s { comment = true })
    else if is_nil s.val
    then (let fresh : Token = record { file = []; line = s.line; text = [] } in
        if ch == b'"'
        then loop (record s { token = fresh; quoted = true })
        else loop (record s { token = fresh; val = ch ∷ [] }))
    else loop (record s { val = s.val ++ (ch ∷ []) })

unfoldable pub round : ℕ → Scan → Round
unfolding quoted_round space_round word_round is_space
round ch s =
    if s.quoted
    then quoted_round ch s
    else if is_space ch
    then space_round ch s
    else word_round ch s

-- What `next` returns, with the lexer as it leaves it; `crash` is the `panic`.
pub data Outcome : Type 0 where
  loaded : Lexer → Outcome
  ended : Lexer → Outcome
  crash : Outcome

-- The lexer after the loop, the runes `rest` unread.
abbrev pub leave : ReadEnd → Text → Scan → Lexer
leave e rest s = record {
  reader = record { runes = rest; ending = e };
  token = s.token;
  line = s.line;
}

-- `makeToken`.
abbrev pub make_token : ReadEnd → Text → Scan → Lexer
make_token e rest s = leave e rest (record s { token = record s.token { text = s.val } })

-- `ReadRune` returned an error.
unfoldable pub scan_end : ReadEnd → Scan → Outcome
scan_end e s =
    if not (is_nil s.val)
    then loaded (make_token e [] s)
    else elim e [ eof ↦ ended (leave eof [] s) | failure ↦ crash ]

unfoldable pub scan : ReadEnd → Text → Scan → Outcome
unfolding scan_end
scan e [] s = scan_end e s
scan e (ch ∷ cs) s = elim (round ch s) [
  | loop s' ↦ scan e cs s'
  | make s' ↦ loaded (make_token e cs s')
]

abbrev pub start : Lexer → Scan
start l = record {
  val = [];
  comment = false;
  quoted = false;
  escaped = false;
  token = l.token;
  line = l.line;
}

unfoldable pub next : Lexer → Outcome
next l = scan l.reader.ending l.reader.runes (start l)

-- The loop of `allTokens`, with the fuel that bounds its rounds; `spent` is the end of the fuel.
pub data Lexing : Type 0 where
  lexed : List Token → Lexing
  crashed : Lexing
  spent : Lexing

abbrev pub prepend : Token → Lexing → Lexing
prepend t (lexed ts) = lexed (t ∷ ts)
prepend t crashed = crashed
prepend t spent = spent

unfoldable pub read_all : ℕ → Lexer → Lexing
read_all zero l = spent
read_all (suc f) l = elim (next l) [
  | loaded l' ↦ prepend l'.token (read_all f l')
  | ended l' ↦ lexed []
  | crash ↦ crashed
]

-- `allTokens`; `none` is the error of `load`. A round reads a rune, so the fuel is enough.
unfoldable pub all_tokens : Reader → Option Lexing
unfolding load
all_tokens r = elim (load r) [
  | none ↦ none
  | some l ↦ some (read_all (suc (length l.reader.runes)) l)
]
