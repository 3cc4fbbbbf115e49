-- ===== src/Parser/Import.antt =====
-- `doImport` and `doSingleImport` of caddyfile/parse.go, on the dispenser that the parser embeds.
use iotacaddy.Prelude.{
  ℕ, ◌-◌, Bool, not, ◌&&◌, ◌||◌, Option, none, some, List, [], ◌∷◌, ◌++◌, map, ltb, if◌then◌else◌,
  Text, take, drop, count, text_eq,
}
use iotacaddy.Lexer.Defs.{Token, Lexing, lexed, crashed, all_tokens, is_nil}
use iotacaddy.Dispenser.Defs.{
  Dispenser, Message, next_arg, val, file, err, arg_err, empty_import, import_arguments,
  no_absolute_path, many_wildcards, bad_pattern, import_not_found, could_not_import, is_directory,
  could_not_read,
}
use iotacaddy.EnvVars.Defs.{replace_env_vars}
use iotacaddy.Parser.Result.{Result, ok, crash, spent, ◌>>=◌, or_spent, or_err}
use iotacaddy.Parser.World.{File, missing, directory, contents, World}

abbrev fail {ℓ} : {A : Type ℓ} → Dispenser → Message → Result A
fail d m = Result.err (err d m)

abbrev contains : ℕ → Text → Bool
contains c s = ltb 0 (count c s)

abbrev read_tokens : Dispenser → Text → Option Lexing → Result (List Token)
read_tokens d name none = fail d (could_not_read name)
read_tokens d name (some (lexed ts)) = ok ts
read_tokens d name (some crashed) = crash
read_tokens d name (some Lexing.spent) = spent

abbrev open_tokens : Dispenser → Text → File → Result (List Token)
open_tokens d name missing = fail d (could_not_import name)
open_tokens d name directory = fail d (is_directory name)
open_tokens d name (contents r) = read_tokens d name (all_tokens r)

unfoldable pub do_single_import : World → Dispenser → Text → Result (List Token)
do_single_import w d name = do
  ts ← open_tokens d name (w.open_file name)
  path ← or_err (err d (no_absolute_path d.filename)) (w.abs name)
  ok (map (λ (t : Token). record t { file = path }) ts)

unfoldable pub import_each : World → Dispenser → List Text → Result (List Token)
import_each w d [] = ok []
import_each w d (name ∷ names) = do
  ts ← do_single_import w d name
  us ← import_each w d names
  ok (ts ++ us)

-- The part of `doImport` that finds and reads files.
unfoldable pub import_files : World → Dispenser → Text → Result (List Token)
unfolding import_each
import_files w d pattern = do
  abs_file ← or_err (err d (no_absolute_path d.filename)) (w.abs (file d))
  let glob_pattern = if w.is_abs pattern then pattern else w.relative abs_file pattern
  if ltb 1 (count b'*' glob_pattern)
        || ltb 1 (count b'?' glob_pattern)
        || (contains b'[' glob_pattern && contains b']' glob_pattern)
      then fail d (many_wildcards glob_pattern)
      else do
        matches ← or_err (err d (bad_pattern pattern)) (w.glob glob_pattern)
        elim matches [
          | [] ↦
              if contains b'*' glob_pattern
                || contains b'?' glob_pattern
                || contains b'[' glob_pattern
                || contains b']' glob_pattern
              then ok []
              else fail d (import_not_found pattern)
          | m ∷ ms ↦ import_each w d (m ∷ ms)
        ]

abbrev pub Snippets : Type 0
Snippets = List (Text × List Token)

unfoldable pub find_snippet : Text → Snippets → Option (List Token)
find_snippet name [] = none
find_snippet name ((n, ts) ∷ rest) = if text_eq n name then some ts else find_snippet name rest

-- The tokens in place of the import statement, which ends with the current token; the cursor
-- goes back to where the statement started.
unfoldable pub splice : Dispenser → List Token → Dispenser
splice d ts = record d {
  tokens = take (d.loaded - 2) d.tokens ++ (ts ++ drop d.loaded d.tokens);
  loaded = d.loaded - 1;
}

-- `doImport`; a slice below 0 panics.
unfoldable pub do_import : ℕ → World → Snippets → Dispenser → Result Dispenser
unfolding import_files
do_import f w snippets d =
    let (d', more) = next_arg d in
    if not more then Result.err (arg_err d) else do
      pattern ← or_spent (replace_env_vars f w.getenv (val d'))
      let (d'', again) = next_arg d'
      if is_nil pattern
          then fail d' empty_import
          else if again
          then fail d'' import_arguments
          else if ltb d'.loaded 2
          then crash
          else do
            ts ← elim (find_snippet pattern snippets) [
              | some ts ↦ ok ts
              | none ↦ import_files w d' pattern
            ]
            ok (splice d' ts)
