-- ===== src/Parser/Tests.antt =====
-- The parser at concrete inputs, and its theorems where their hypotheses hold.
use Prim.Native.String.{String}
use iotacaddy.Prelude.{
  true, none, some, List, [], ◌∷◌, map, ◌≡◌, refl, Text, codes, if◌then◌else◌, text_eq,
}
use iotacaddy.Lexer.Defs.{Token, Reader, eof}
use iotacaddy.Parser.Defs.{Grouped, ServerBlock, Parsed, parsed, panicked, unfinished, parse}
use iotacaddy.Parser.Valid.{ParsedValid, parse-ParsedValid}
use iotacaddy.Parser.World.{World, missing, contents}

abbrev input : String → Reader
input s = record { runes = codes s; ending = eof }

-- One environment variable, `P`, and one file, `inc`.
abbrev world : World
world = record {
  getenv = λ n. if text_eq n (codes "P") then codes "80" else [];
  abs = λ f. some f;
  is_abs = λ f. true;
  relative = λ d f. f;
  glob = λ f. some (f ∷ []);
  open_file = λ f. if text_eq f (codes "inc") then contents (input "gzip\n") else missing;
}

abbrev source : Reader
source = input "(s) {\n tls off\n}\na:{$P}, b {\n dir x {\n y {$P}\n }\n import s\n import inc\n}\n"

-- The keys of the blocks, with their directives and the texts under each.
abbrev texts : Grouped → List (Text × List Text)
texts [] = []
texts ((d, ts) ∷ m) = (d, map (λ (t : Token). t.text) ts) ∷ texts m

abbrev shape : Parsed → List (List Text × List (Text × List Text))
shape (parsed blocks e) = map (λ (b : ServerBlock). (b.keys, texts b.tokens)) blocks
shape panicked = []
shape unfinished = []

parses :
    shape (parse 40 world (codes "Caddyfile") source none)
    ≡ (
      codes "a:80" ∷ codes "b" ∷ [],
      (codes "dir", codes "dir" ∷ codes "x" ∷ codes "{" ∷ codes "y" ∷ codes "80" ∷ codes "}" ∷ [])
          ∷ (codes "tls", codes "tls" ∷ codes "off" ∷ [])
          ∷ (codes "gzip", codes "gzip" ∷ [])
          ∷ [],
    )
      ∷ []
unfolding parse iotacaddy.Lexer.Defs.all_tokens iotacaddy.Lexer.Defs.read_all
    iotacaddy.Lexer.Defs.next iotacaddy.Lexer.Defs.scan iotacaddy.Lexer.Defs.round
    iotacaddy.Lexer.Defs.is_space iotacaddy.Lexer.Defs.load iotacaddy.Lexer.Defs.quoted_round
    iotacaddy.Lexer.Defs.quoted_rune iotacaddy.Lexer.Defs.scan_end iotacaddy.Lexer.Defs.space_round
    iotacaddy.Lexer.Defs.word_round iotacaddy.Dispenser.Defs.new_dispenser
    iotacaddy.Dispenser.Defs.next iotacaddy.Dispenser.Defs.val iotacaddy.Dispenser.Defs.is_new_line
    iotacaddy.Dispenser.Defs.later_line iotacaddy.Dispenser.Defs.line_breaks
    iotacaddy.Dispenser.Defs.next_arg iotacaddy.Dispenser.Defs.next_if
    iotacaddy.Dispenser.Defs.same_line iotacaddy.EnvVars.Defs.replace_env_vars
    iotacaddy.EnvVars.Defs.replace_env_references iotacaddy.EnvVars.Defs.reference_round
    iotacaddy.EnvVars.Defs.index iotacaddy.EnvVars.Defs.has_prefix
    iotacaddy.EnvVars.Defs.replace_from text_eq iotacaddy.Parser.Defs.parse_all
    iotacaddy.Parser.Defs.parse_one iotacaddy.Parser.Defs.add_key
    iotacaddy.Parser.Defs.address_round iotacaddy.Parser.Defs.addresses
    iotacaddy.Parser.Defs.append_token iotacaddy.Parser.Defs.begin
    iotacaddy.Parser.Defs.block_contents iotacaddy.Parser.Defs.close_curly_brace
    iotacaddy.Parser.Defs.collect iotacaddy.Parser.Defs.decide_step
    iotacaddy.Parser.Defs.define_snippet iotacaddy.Parser.Defs.directive
    iotacaddy.Parser.Defs.directive_loop iotacaddy.Parser.Defs.directives
    iotacaddy.Parser.Defs.import_here iotacaddy.Parser.Defs.is_snippet
    iotacaddy.Parser.Defs.keep_token iotacaddy.Parser.Defs.replace_current
    iotacaddy.Parser.Defs.snippet_loop iotacaddy.Parser.Defs.snippet_tokens
    iotacaddy.Parser.Defs.valid_directive iotacaddy.Parser.Import.do_import
    iotacaddy.Parser.Import.do_single_import iotacaddy.Parser.Import.find_snippet
    iotacaddy.Parser.Import.import_each iotacaddy.Parser.Import.import_files
    iotacaddy.Parser.Import.splice
parses = refl

parse-ParsedValid_example : ParsedValid (some (codes "tls" ∷ codes "gzip" ∷ codes "dir" ∷ [])) (
    parse 40 world
      (codes "Caddyfile")
      source
      (some (codes "tls" ∷ codes "gzip" ∷ codes "dir" ∷ [])))
parse-ParsedValid_example =
    parse-ParsedValid 40 world (codes "Caddyfile") source
      (some (codes "tls" ∷ codes "gzip" ∷ codes "dir" ∷ []))
