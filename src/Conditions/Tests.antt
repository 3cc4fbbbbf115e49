-- ===== src/Conditions/Tests.antt =====
-- Conditions at concrete texts, and their theorems where their hypotheses hold.
use iotacaddy.Prelude.{true, false, some, [], ◌∷◌, ◌≡◌, refl, ◌↔◌, codes, text_eq}
use iotacaddy.EnvVars.Defs.{has_prefix}
use iotacaddy.Lexer.Words.{token_at}
use iotacaddy.Dispenser.Defs
use iotacaddy.Dispenser.Defs.{Dispenser, new_dispenser_tokens}
use iotacaddy.Conditions.Defs.{
  Compile, IfCond, made, not_prefix, with_operator, new_if_cond, Replacing, is_true, IfMatcher,
  IfSetUp, configured, match, setup_if_matcher,
}
use iotacaddy.Conditions.Operators.{starts_with_op}
use iotacaddy.Conditions.Meaning.{Condition, Says, match-Says}
use iotacaddy.Conditions.Configured.{ReturnsReady, setup_if_matcher-ReturnsReady}

-- A pattern matches the text that it is.
abbrev compile : Compile
compile p = some (text_eq p)

-- The replacer gives `x` for every text.
abbrev request : Replacing
request = some λ a. codes "x"

abbrev starts : IfCond
starts = record {
  a = codes "ab";
  op = codes "starts_with";
  b = codes "a";
  neg = false;
  f = some has_prefix;
}

abbrev either : IfMatcher
either = record { enabled = true; ifs = starts ∷ []; is_or = true }

-- `if ab starts_with a`.
abbrev starts_written : Condition
starts_written = record {
  a = codes "ab";
  negated = false;
  operator = starts_with_op;
  b = codes "a";
}

match-Says_example :
    (match either request ≡ true) ↔ Says compile either request (starts_written ∷ [])
unfolding new_if_cond with_operator has_prefix text_eq
match-Says_example = match-Says compile either request (starts_written ∷ []) (refl, tt)

-- `rewrite {`, `if ab is b`, `}`.
abbrev block : Dispenser
block =
    record (new_dispenser_tokens [] (
      token_at 1 (codes "rewrite")
      ∷ token_at 1 (codes "{")
      ∷ token_at 2 (codes "if")
      ∷ token_at 2 (codes "ab")
      ∷ token_at 2 (codes "starts_with")
      ∷ token_at 2 (codes "a")
      ∷ token_at 3 (codes "}")
      ∷ [])) { loaded = 1 }

configures :
    setup_if_matcher 3 compile block
    ≡ configured (record { enabled = true; ifs = starts ∷ []; is_or = false })
unfolding iotacaddy.Dispenser.Defs.next_block iotacaddy.Dispenser.Defs.enter_block
    iotacaddy.Dispenser.Defs.next iotacaddy.Dispenser.Defs.next_arg iotacaddy.Dispenser.Defs.next_if
    iotacaddy.Dispenser.Defs.same_line iotacaddy.Dispenser.Defs.line_breaks
    iotacaddy.Dispenser.Defs.val iotacaddy.Dispenser.Defs.remaining_args
    iotacaddy.Dispenser.Defs.remaining_args_from text_eq setup_if_matcher
    iotacaddy.Conditions.Defs.setup_from iotacaddy.Conditions.Defs.block_round
    iotacaddy.Conditions.Defs.op_round new_if_cond with_operator has_prefix
configures = refl

setup_if_matcher-ReturnsReady_example : ReturnsReady (setup_if_matcher 3 compile block)
setup_if_matcher-ReturnsReady_example = setup_if_matcher-ReturnsReady 3 compile block
