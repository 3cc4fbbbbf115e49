-- ===== src/Dispenser/Defs.antt =====
-- The dispenser of caddyfile/dispenser.go. Its cursor starts at -1 and is decremented only right
-- after it was incremented, so the field `loaded` holds the source's `cursor + 1`: the number of
-- tokens loaded so far. A method returns the new dispenser and its result.
use iotacaddy.Prelude.{
  ℕ, zero, suc, ◌+◌, ◌-◌, Bool, true, false, not, ◌&&◌, ◌||◌, Option, none, some, List, [], ◌∷◌,
  ltb, leb, ◌==◌, if◌then◌else◌, Text, length, get_elem?, count, text_eq,
}
use iotacaddy.Lexer.Defs.{Token, Reader, lexed, crashed, spent, all_tokens, is_nil}

pub record Dispenser : Type 0 where
  pub filename : Text
  pub tokens : List Token
  pub loaded : ℕ
  pub nesting : ℕ

abbrev pub new_dispenser_tokens : Text → List Token → Dispenser
new_dispenser_tokens name ts = record { filename = name; tokens = ts; loaded = 0; nesting = 0 }

-- `NewDispenser`: the error of `allTokens` is ignored. `none` is its panic.
unfoldable pub new_dispenser : Text → Reader → Option Dispenser
new_dispenser name input = elim (all_tokens input) [
  | none ↦ some (new_dispenser_tokens name [])
  | some (lexed ts) ↦ some (new_dispenser_tokens name ts)
  | some crashed ↦ none
  | some spent ↦ none
]

-- The token at `cursor`, where `loaded` is `cursor + 1`.
abbrev pub token_before : List Token → ℕ → Option Token
token_before ts zero = none
token_before ts (suc i) = get_elem? ts i

abbrev pub current : Dispenser → Option Token
current d = token_before d.tokens d.loaded

-- `cursor++`.
abbrev pub advance : Dispenser → Dispenser
advance d = record d { loaded = suc d.loaded }

-- `cursor--`.
abbrev pub step_back : Dispenser → Dispenser
step_back d = record d { loaded = d.loaded - 1 }

unfoldable pub next : Dispenser → Dispenser × Bool
next d = if ltb d.loaded (length d.tokens) then (advance d, true) else (d, false)

-- `numLineBreaks`, of the token itself.
unfoldable pub line_breaks : Token → ℕ
line_breaks t = count b'\n' t.text

-- The tests of `NextArg` and `NextLine` on the current token and the one behind it.
unfoldable pub same_line : Token → Token → Bool
unfolding line_breaks
same_line t u = text_eq t.file u.file && t.line + line_breaks t == u.line

unfoldable pub later_line : Token → Token → Bool
unfolding line_breaks
later_line t u = not (text_eq t.file u.file) || ltb (t.line + line_breaks t) u.line

abbrev pub holds : (Token → Token → Bool) → Option Token → Option Token → Bool
holds test (some t) (some u) = test t u
holds test none u = false
holds test (some t) none = false

-- The common shape of `NextArg` and `NextLine`. A token behind the current one is there
-- exactly if `cursor < len(tokens) - 1`.
unfoldable pub next_if : (Token → Token → Bool) → Dispenser → Dispenser × Bool
next_if test d =
    if d.loaded == 0
    then (advance d, true)
    else if holds test (current d) (get_elem? d.tokens d.loaded)
    then (advance d, true)
    else (d, false)

unfoldable pub next_arg : Dispenser → Dispenser × Bool
unfolding next_if
next_arg = next_if same_line

unfoldable pub next_line : Dispenser → Dispenser × Bool
unfolding next_if
next_line = next_if later_line

abbrev pub text_or_empty : Option Token → Text
text_or_empty none = []
text_or_empty (some t) = t.text

unfoldable pub val : Dispenser → Text
val d = text_or_empty (current d)

unfoldable pub line : Dispenser → ℕ
line d = elim (current d) [ none ↦ 0 | some t ↦ t.line ]

unfoldable pub file : Dispenser → Text
file d = elim (current d) [
  | none ↦ d.filename
  | some t ↦ if is_nil t.file then d.filename else t.file
]

abbrev pub open_brace : Text
open_brace = b'{' ∷ []

abbrev pub close_brace : Text
close_brace = b'}' ∷ []

-- The part of `NextBlock` behind a first `{`.
unfoldable pub enter_block : Dispenser → Dispenser × Bool
enter_block d =
    let d' = (next d).0 in
    if text_eq (val d') close_brace
    then (d', false)
    else (record d' { nesting = d'.nesting + 1 }, true)

unfoldable pub next_block : Dispenser → Dispenser × Bool
unfolding enter_block
next_block d =
    if ltb 0 d.nesting
    then (let d' = (next d).0 in
        if text_eq (val d') close_brace
        then (record d' { nesting = d'.nesting - 1 }, false)
        else (d', true))
    else (let (d', more) = next_arg d in
        if not more
        then (d', false)
        else if not (text_eq (val d') open_brace)
        then (step_back d', false)
        else enter_block d')

-- `Args`: the new values of the targets, those that are not reached as they were.
unfoldable pub args : Dispenser → List Text → Dispenser × List Text × Bool
args d [] = (d, [], true)
args d (t ∷ ts) =
    let (d', more) = next_arg d in
    let (d'', ts', enough) = args d' ts in
    if more then (d'', val d' ∷ ts', enough) else (d', t ∷ ts, false)

-- `RemainingArgs`, a loop on fuel: each round but the last loads a token.
unfoldable pub remaining_args_from : ℕ → Dispenser → Dispenser × List Text
remaining_args_from zero d = (d, [])
remaining_args_from (suc f) d =
    let (d', more) = next_arg d in
    let rest = remaining_args_from f d' in
    if not more
    then (d', [])
    else if text_eq (val d') open_brace
    then (step_back d', [])
    else (rest.0, val d' ∷ rest.1)

unfoldable pub remaining_args : Dispenser → Dispenser × List Text
unfolding remaining_args_from
remaining_args d = remaining_args_from (length d.tokens + 2 - d.loaded) d

unfoldable pub is_new_line : Dispenser → Bool
is_new_line d =
    if leb d.loaded 1
    then true
    else if ltb (length d.tokens) d.loaded
    then false
    else holds later_line (token_before d.tokens (d.loaded - 1)) (current d)

-- The errors that the dispenser and the parser make: where (`File`, `Line`), and what is said.
pub data Message : Type 0 where
  unexpected_brace : Message
  wrong_count : Text → Message
  expecting : Text → Text → Message
  unexpected_eof : Message
  extra_comma : Text → Message
  redeclared : Text → Message
  empty_import : Message
  import_arguments : Message
  no_absolute_path : Text → Message
  many_wildcards : Text → Message
  bad_pattern : Text → Message
  import_not_found : Text → Message
  could_not_import : Text → Message
  is_directory : Text → Message
  could_not_read : Text → Message
  unknown_directive : Text → Message
  unmatched_brace : Message

pub record Error : Type 0 where
  pub file : Text
  pub line : ℕ
  pub message : Message

unfoldable pub err : Dispenser → Message → Error
err d m = record { file = file d; line = line d; message = m }

unfoldable pub arg_err : Dispenser → Error
arg_err d = err d (if text_eq (val d) open_brace then unexpected_brace else wrong_count (val d))

unfoldable pub syntax_err : Dispenser → Text → Error
syntax_err d expected = err d (expecting (val d) expected)

unfoldable pub eof_err : Dispenser → Error
eof_err d = err d unexpected_eof
