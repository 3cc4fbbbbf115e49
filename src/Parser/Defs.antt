-- ===== src/Parser/Defs.antt =====
-- The parser of caddyfile/parse.go. A method returns the parser as it leaves it. The fuel bounds
-- the rounds of each loop: an import may add tokens without end. A map is the list of its
-- entries, and a snippet or a list of tokens is found by the first entry with its key.
use iotacaddy.Prelude.{
  ℕ, zero, suc, ◌+◌, ◌-◌, Bool, true, false, not, ◌&&◌, ◌||◌, Option, none, some, List, [], ◌∷◌,
  ◌++◌, ltb, ◌==◌, if◌then◌else◌, Text, codes, length, text_eq,
}
use iotacaddy.Lexer.Defs.{Token, Reader, is_nil}
use iotacaddy.Dispenser.Defs.{
  Dispenser, Error, Message, current, step_back, next, val, err, syntax_err, eof_err, is_new_line,
  open_brace, close_brace, extra_comma, redeclared, unknown_directive, unmatched_brace,
  new_dispenser,
}
use iotacaddy.EnvVars.Defs.{replace_env_vars}
use iotacaddy.Parser.Import.{Snippets, find_snippet, do_import}
use iotacaddy.Parser.Result.{Result, ok, crash, spent, ◌>>=◌, or_spent}
use iotacaddy.Parser.World.{World}

abbrev pub Grouped : Type 0
Grouped = List (Text × List Token)

pub record ServerBlock : Type 0 where
  pub keys : List Text
  pub tokens : Grouped

abbrev pub empty_block : ServerBlock
empty_block = record { keys = []; tokens = [] }

-- `m[dir] = append(m[dir], t)`.
unfoldable pub append_token : Text → Token → Grouped → Grouped
append_token dir t [] = (dir, t ∷ []) ∷ []
append_token dir t ((d, ts) ∷ m) =
    if text_eq d dir then (d, ts ++ (t ∷ [])) ∷ m else (d, ts) ∷ append_token dir t m

-- `reported` is what `telemetry.AppendUnique` was called with, in order.
pub record Parser : Type 0 where
  pub disp : Dispenser
  pub block : ServerBlock
  pub valid_directives : Option (List Text)
  pub eof : Bool
  pub snippets : Snippets
  pub reported : List Text

abbrev pub fail {ℓ} : {A : Type ℓ} → Parser → Message → Result A
fail p m = Result.err (err p.disp m)

abbrev pub at : Parser → Dispenser → Parser
at p d = record p { disp = d }

abbrev pub import_word : Text
import_word = codes "import"

unfoldable pub import_here : ℕ → World → Parser → Result Parser
import_here f w p = do d ← do_import f w p.snippets p.disp; ok (at p d)

-- The last rune of a text, and the text before it.
abbrev pub last_or : ℕ → Text → ℕ
last_or c [] = c
last_or c (x ∷ xs) = last_or x xs

abbrev pub but_last : Text → Text
but_last [] = []
but_last (x ∷ []) = []
but_last (x ∷ y ∷ ys) = x ∷ but_last (y ∷ ys)

-- The part of a round of `addresses` that stores a key: the block, and `expectingAnother`.
unfoldable pub add_key : Text → Bool → ServerBlock → ServerBlock × Bool
add_key tkn expecting b =
    if is_nil tkn
    then (b, expecting)
    else if last_or 0 tkn == b','
    then (record b { keys = b.keys ++ (but_last tkn ∷ []) }, true)
    else (record b { keys = b.keys ++ (tkn ∷ []) }, false)

-- What a round of `addresses` does behind the key: it goes on, or the loop ends.
pub data Round : Type 0 where
  again : Parser → Round
  finished : Parser → Round

unfoldable pub address_round : Text → Bool → Parser → Result (Round × Bool)
address_round tkn expecting p =
    let (block', expecting') = add_key tkn expecting p.block in
    let (d', has_next) = next p.disp in
    let p' : Parser = record p { disp = d'; block = block' } in
    if expecting' && not has_next
    then Result.err (eof_err d')
    else if not has_next
    then ok (finished (record p' { eof = true }), expecting')
    else if not expecting' && is_new_line d'
    then ok (finished p', expecting')
    else ok (again p', expecting')

unfoldable pub addresses : ℕ → World → Bool → Parser → Result Parser
unfolding import_here address_round
addresses zero w expecting p = spent
addresses (suc f) w expecting p = do
  tkn ← or_spent (replace_env_vars f w.getenv (val p.disp))
  if text_eq tkn import_word && is_new_line p.disp
      then (do p' ← import_here f w p; addresses f w expecting p')
      else if text_eq tkn open_brace
      then (if expecting then fail p (extra_comma tkn) else ok p)
      else do
        (r, expecting') ← address_round tkn expecting p
        elim r [ again p' ↦ addresses f w expecting' p' | finished p' ↦ ok p' ]

unfoldable pub is_member : Text → List Text → Bool
is_member a [] = false
is_member a (x ∷ xs) = text_eq x a || is_member a xs

unfoldable pub valid_directive : Text → Option (List Text) → Bool
valid_directive dir none = true
valid_directive dir (some ds) = is_member dir ds

-- `p.tokens[i] = t`.
abbrev pub set {ℓ} : {A : Type ℓ} → List A → ℕ → A → List A
set [] i v = []
set (x ∷ xs) zero v = v ∷ xs
set (x ∷ xs) (suc i) v = x ∷ set xs i v

-- `p.block.Tokens[dir] = append(p.block.Tokens[dir], p.tokens[p.cursor])`; no token there panics.
unfoldable pub collect : Text → Parser → Result Parser
collect dir p = elim (current p.disp) [
  | none ↦ crash
  | some t ↦ ok (record p { block = record p.block { tokens = append_token dir t p.block.tokens } })
]

-- `p.tokens[p.cursor].Text = replaceEnvVars(p.tokens[p.cursor].Text)`.
unfoldable pub replace_current : ℕ → World → Parser → Result Parser
replace_current f w p = elim (current p.disp) [
  | none ↦ crash
  | some t ↦ do
    text' ← or_spent (replace_env_vars f w.getenv t.text)
    ok (
        at p (record p.disp {
          tokens = set p.disp.tokens (p.disp.loaded - 1) (record t { text = text' });
        }))
]

unfoldable pub keep_token : ℕ → World → Text → Parser → Result Parser
unfolding replace_current collect
keep_token f w dir p = do p' ← replace_current f w p; collect dir p'

-- What a round of the loop of `directive` decides on the token that it loaded.
pub data Step : Type 0 where
  keep : ℕ → Step
  stop : Step
  unmatched : Step
  splice_in : Step

unfoldable pub decide_step : Dispenser → ℕ → Step
decide_step d nesting =
    if text_eq (val d) open_brace
    then keep (nesting + 1)
    else if is_new_line d && nesting == 0
    then stop
    else if text_eq (val d) close_brace && ltb 0 nesting
    then keep (nesting - 1)
    else if text_eq (val d) close_brace && nesting == 0
    then unmatched
    else if text_eq (val d) import_word && is_new_line d
    then splice_in
    else keep nesting

-- The loop of `directive`, and the check behind it.
unfoldable pub directive_loop : ℕ → World → Text → ℕ → Parser → Result Parser
directive_loop zero w dir nesting p = spent
directive_loop (suc f) w dir nesting p =
    let (d', more) = next p.disp in
    if not more
    then (if ltb 0 nesting then Result.err (eof_err d') else ok (at p d'))
    else elim (decide_step d' nesting) [
      | keep n ↦ do p' ← keep_token f w dir (at p d'); directive_loop f w dir n p'
      | stop ↦ ok (at p (step_back d'))
      | unmatched ↦ fail (at p d') unmatched_brace
      | splice_in ↦ do
        p' ← import_here f w (at p d')
        directive_loop f w dir nesting (at p' (step_back p'.disp))
    ]

unfoldable pub directive : ℕ → World → Parser → Result Parser
directive f w p = do
  dir ← or_spent (replace_env_vars f w.getenv (val p.disp))
  if not (valid_directive dir p.valid_directives) then fail p (unknown_directive dir) else do
    p' ← collect dir p
    directive_loop f w dir 0 (record p' { reported = p'.reported ++ (dir ∷ []) })

unfoldable pub directives : ℕ → World → Parser → Result Parser
directives zero w p = spent
directives (suc f) w p =
    let (d', more) = next p.disp in
    if not more
    then ok (at p d')
    else if text_eq (val d') close_brace
    then ok (at p d')
    else if text_eq (val d') import_word
    then (do p' ← import_here f w (at p d'); directives f w (at p' (step_back p'.disp)))
    else do p' ← directive f w (at p d'); directives f w p'

unfoldable pub close_curly_brace : Parser → Result Parser
close_curly_brace p =
    if text_eq (val p.disp) close_brace then ok p else Result.err (syntax_err p.disp close_brace)

unfoldable pub block_contents : ℕ → World → Parser → Result Parser
unfolding close_curly_brace
block_contents f w p =
    if text_eq (val p.disp) open_brace
    then (do p' ← directives f w p; close_curly_brace p')
    else directives f w (at p (step_back p.disp))

-- `isSnippet`, with the name.
unfoldable pub is_snippet : List Text → Option Text
is_snippet ((c ∷ k) ∷ []) = if c == b'(' && last_or c k == b')' then some (but_last k) else none
is_snippet _ = none

-- The loop of `snippetTokens`; `count` is what is left of it.
unfoldable pub snippet_loop : ℕ → ℕ → List Token → Dispenser → Result (Dispenser × List Token)
snippet_loop zero count ts d = spent
snippet_loop (suc f) count ts d =
    let (d', more) = next d in
    if not more
    then (if count == 0 then ok (d', ts) else Result.err (syntax_err d' close_brace))
    else if text_eq (val d') close_brace && count == 1
    then ok (d', ts)
    else elim (current d') [
      | none ↦ crash
      | some t ↦
          snippet_loop f
            (if text_eq (val d') close_brace
              then count - 1
              else if text_eq (val d') open_brace
              then count + 1
              else count)
            (ts ++ (t ∷ [])) d'
    ]

unfoldable pub snippet_tokens : ℕ → Dispenser → Result (Dispenser × List Token)
unfolding snippet_loop
snippet_tokens f d =
    if text_eq (val d) open_brace
    then snippet_loop f 1 [] d
    else Result.err (syntax_err d open_brace)

-- The part of `begin` for a snippet that is called `name`.
unfoldable pub define_snippet : ℕ → Text → Parser → Result Parser
define_snippet f name p = elim (find_snippet name p.snippets) [
  | some _ ↦ fail p (redeclared name)
  | none ↦ do
    (d', ts) ← snippet_tokens f p.disp
    ok (record p {
      disp = d';
      snippets = (name, ts) ∷ p.snippets;
      block = record p.block { keys = [] };
    })
]

unfoldable pub begin : ℕ → World → Parser → Result Parser
begin f w p = if length p.disp.tokens == 0 then ok p else do
  p' ← addresses f w false p
  if p'.eof then ok p' else elim (is_snippet p'.block.keys) [
    | some name ↦ define_snippet f name p'
    | none ↦ block_contents f w p'
  ]

unfoldable pub parse_one : ℕ → World → Parser → Result Parser
unfolding begin
parse_one f w p = begin f w (record p { block = empty_block })

abbrev pub has_keys : List Text → Bool
has_keys [] = false
has_keys (_ ∷ _) = true

-- What `Parse` returns: the blocks, and the error if there was one.
pub data Parsed : Type 0 where
  parsed : List ServerBlock → Option Error → Parsed
  panicked : Parsed
  unfinished : Parsed

unfoldable pub parse_all : ℕ → World → List ServerBlock → Parser → Parsed
parse_all zero w blocks p = unfinished
parse_all (suc f) w blocks p =
    let (d', more) = next p.disp in
    if not more then parsed blocks none else elim (parse_one f w (at p d')) [
      | ok p' ↦
          parse_all f w (if has_keys p'.block.keys then blocks ++ (p'.block ∷ []) else blocks) p'
      | Result.err e ↦ parsed blocks (some e)
      | crash ↦ panicked
      | spent ↦ unfinished
    ]

abbrev pub new_parser : Dispenser → Option (List Text) → Parser
new_parser d valid = record {
  disp = d;
  block = empty_block;
  valid_directives = valid;
  eof = false;
  snippets = [];
  reported = [];
}

unfoldable pub parse : ℕ → World → Text → Reader → Option (List Text) → Parsed
parse f w name input valid = elim (new_dispenser name input) [
  | none ↦ panicked
  | some d ↦ parse_all f w [] (new_parser d valid)
]
