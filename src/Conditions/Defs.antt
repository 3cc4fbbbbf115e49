-- ===== src/Conditions/Defs.antt =====
-- The conditions of caddyhttp/httpserver/condition.go. The regular expressions are a parameter,
-- and so is the replacer of a request.
use iotacaddy.Prelude.{
  ℕ, zero, suc, ◌-◌, Bool, true, false, not, ◌&&◌, ◌||◌, Option, none, some, List, [], ◌∷◌, ◌++◌,
  if◌then◌else◌, leb, Text, codes, text_eq, length, drop,
}
use iotacaddy.Dispenser.Defs.{Dispenser, Error, next_block, next_arg, remaining_args, val, arg_err}
use iotacaddy.EnvVars.Defs.{has_prefix}
use iotacaddy.Lexer.Defs.{is_nil}

-- `regexp.Compile`, with `MatchString` of what it returns.
abbrev pub Compile : Type 0
Compile = Text → Option (Text → Bool)

-- `strings.Contains`.
unfoldable pub contains : Text → Text → Bool
contains [] b = is_nil b
contains (c ∷ a) b = has_prefix (c ∷ a) b || contains a b

-- `strings.HasSuffix`.
unfoldable pub has_suffix : Text → Text → Bool
has_suffix a b = leb (length b) (length a) && text_eq (drop (length a - length b) a) b

abbrev pub not_prefix : Text
not_prefix = codes "not_"

abbrev pub match_op : Text
match_op = codes "match"

-- `ifCond`; its field `rex` is read by `f` only.
pub record IfCond : Type 0 where
  pub a : Text
  pub op : Text
  pub b : Text
  pub neg : Bool
  pub f : Option (Text → Text → Bool)

-- What `newIfCond` returns.
pub data Made : Type 0 where
  made : IfCond → Made
  bad_pattern : Text → Made
  bad_operator : Text → Made

abbrev pub with_pattern : IfCond → Option (Text → Bool) → Made
with_pattern i none = bad_pattern i.b
with_pattern i (some matches) = made (record i { f = some (λ a b. matches a) })

-- The `switch` of `newIfCond`.
unfoldable pub with_operator : Compile → IfCond → Made
with_operator compile i =
    if text_eq i.op (codes "is")
    then made (record i { f = some text_eq })
    else if text_eq i.op (codes "not")
    then made (record i { f = some (λ a b. not (text_eq a b)) })
    else if text_eq i.op (codes "has")
    then made (record i { f = some contains })
    else if text_eq i.op (codes "starts_with")
    then made (record i { f = some has_prefix })
    else if text_eq i.op (codes "ends_with")
    then made (record i { f = some has_suffix })
    else if text_eq i.op match_op
    then with_pattern i (compile i.b)
    else bad_operator i.op

unfoldable pub new_if_cond : Compile → Text → Text → Text → Made
new_if_cond compile a op b =
    if has_prefix op not_prefix
    then with_operator compile (record { a = a; op = drop 4 op; b = b; neg = true; f = none })
    else with_operator compile (record { a = a; op = op; b = b; neg = false; f = none })

-- What the replacer of a request makes of a text; `none` is a nil request.
abbrev pub Replacing : Type 0
Replacing = Option (Text → Text)

abbrev pub replaced : Replacing → Text → Text
replaced none a = a
replaced (some replace) a = replace a

-- The second operand: a pattern is not replaced.
abbrev pub operand : IfCond → Replacing → Text
operand i r = if text_eq i.op match_op then i.b else replaced r i.b

-- `ifCond.True`.
unfoldable pub is_true : IfCond → Replacing → Bool
is_true i r = elim i.f [
  | none ↦ i.neg
  | some f ↦
      if i.neg then not (f (replaced r i.a) (operand i r)) else f (replaced r i.a) (operand i r)
]

pub record IfMatcher : Type 0 where
  pub enabled : Bool
  pub ifs : List IfCond
  pub is_or : Bool

unfoldable pub all_true : List IfCond → Replacing → Bool
all_true [] r = true
all_true (i ∷ is) r = if not (is_true i r) then false else all_true is r

unfoldable pub any_true : List IfCond → Replacing → Bool
any_true [] r = false
any_true (i ∷ is) r = if is_true i r then true else any_true is r

unfoldable pub match : IfMatcher → Replacing → Bool
match m r = if m.is_or then any_true m.ifs r else all_true m.ifs r

-- What `SetupIfMatcher` returns: the matcher as it is then, with an error of the dispenser, with
-- one of a condition, or with none.
pub data IfSetUp : Type 0 where
  configured : IfMatcher → IfSetUp
  refused : IfMatcher → Error → IfSetUp
  unmade : IfMatcher → Made → IfSetUp
  spent : IfSetUp

abbrev pub no_conditions : IfMatcher
no_conditions = record { enabled = false; ifs = []; is_or = false }

-- One round of the loop goes on with a matcher, or returns.
pub data Round : Type 0 where
  again : IfMatcher → Dispenser → Round
  return : IfSetUp → Round

abbrev pub add_made : IfMatcher → Dispenser → Made → Round
add_made m d (made i) = again (record m { enabled = true; ifs = m.ifs ++ (i ∷ []) }) d
add_made m d (bad_pattern b) = return (unmade m (bad_pattern b))
add_made m d (bad_operator o) = return (unmade m (bad_operator o))

-- The `if` case, on the arguments of the line.
abbrev pub if_round : Compile → IfMatcher → Dispenser → List Text → Round
if_round compile m d (a ∷ op ∷ b ∷ []) = add_made m d (new_if_cond compile a op b)
if_round compile m d _ = return (refused m (arg_err d))

-- The `if_op` case.
unfoldable pub op_round : IfMatcher → Dispenser → Round
op_round m d =
    let (d', more) = next_arg d in
    if not more
    then return (refused m (arg_err d'))
    else if text_eq (val d') (codes "and")
    then again (record m { is_or = false }) d'
    else if text_eq (val d') (codes "or")
    then again (record m { is_or = true }) d'
    else return (refused m (arg_err d'))

unfoldable pub block_round : Compile → IfMatcher → Dispenser → Round
unfolding op_round
block_round compile m d =
    let (d', words) = remaining_args d in
    if text_eq (val d) (codes "if")
    then if_round compile m d' words
    else if text_eq (val d) (codes "if_op")
    then op_round m d
    else again m d

-- The loop of `SetupIfMatcher`, on fuel, since `NextBlock` need not come to an end.
unfoldable pub setup_from : ℕ → Compile → IfMatcher → Dispenser → IfSetUp
unfolding block_round
setup_from zero compile m d = spent
setup_from (suc n) compile m d =
    let (d', more) = next_block d in
    if not more then configured m else elim (block_round compile m d') [
      | again m' d'' ↦ setup_from n compile m' d''
      | return r ↦ r
    ]

unfoldable pub setup_if_matcher : ℕ → Compile → Dispenser → IfSetUp
setup_if_matcher n compile d = setup_from n compile no_conditions d

-- `IfMatcherKeyword`.
unfoldable pub if_matcher_keyword : Dispenser → Dispenser × Bool
if_matcher_keyword d =
    if text_eq (val d) (codes "if") || text_eq (val d) (codes "if_op")
    then ((remaining_args d).0, true)
    else (d, false)
