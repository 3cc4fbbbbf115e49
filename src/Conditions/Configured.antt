-- ===== src/Conditions/Configured.antt =====
-- What `SetupIfMatcher` of caddyhttp/httpserver/condition.go returns.
use iotacaddy.Prelude.{
  ℕ, zero, suc, Bool, true, false, not, some, List, [], ◌∷◌, ◌++◌, ◌≡◌, refl, inl, inr,
  if◌then◌else◌, Bool-cases, Option-cases, arith, Text, codes, text_eq, All,
}
use iotacaddy.Dispenser.Defs.{Dispenser, next_block, next_arg, remaining_args, val, arg_err}
use iotacaddy.Conditions.Defs.{
  Compile, IfCond, Made, made, bad_pattern, bad_operator, with_operator, new_if_cond, IfMatcher,
  no_conditions, IfSetUp, configured, refused, unmade, spent, Round, again, return, add_made,
  if_round, op_round, block_round, setup_from, setup_if_matcher,
}

abbrev HasTest : IfCond → Type 0
HasTest i = (f : Text → Text → Bool) × (i.f ≡ some f)

abbrev no_ifs : List IfCond → Bool
no_ifs [] = true
no_ifs (_ ∷ _) = false

-- A matcher is enabled exactly if it has conditions, and each of them has a test.
pub record IsReady (m : IfMatcher) : Type 0 where
  pub enabled_is : m.enabled ≡ not (no_ifs m.ifs)
  pub tests : All HasTest m.ifs

-- The matcher that a set-up returns, with an error or without.
abbrev pub ReturnsReady : IfSetUp → Type 0
ReturnsReady (configured m) = IsReady m
ReturnsReady (refused m e) = IsReady m
ReturnsReady (unmade m e) = IsReady m
ReturnsReady spent = Unit

abbrev RoundReady : Round → Type 0
RoundReady (again m d) = IsReady m
RoundReady (return r) = ReturnsReady r

new_if_cond-HasTest :
    (compile : Compile) (a op b : Text) (i : IfCond)
    → new_if_cond compile a op b ≡ made i
    → HasTest i
unfolding new_if_cond with_operator
new_if_cond-HasTest compile a op b i h = elim (Option-cases i.f) [
  | inl e ↦ absurd (ground arith)
  | inr g ↦ g
]

All-append :
    (is : List IfCond) (i : IfCond) → All HasTest is → HasTest i → All HasTest (is ++ (i ∷ []))
All-append [] i h t = (t, tt)
All-append (j ∷ is) i (u, h) t = (u, All-append is i h t)

no_ifs-append : (is : List IfCond) (i : IfCond) → no_ifs (is ++ (i ∷ [])) ≡ false
no_ifs-append [] i = refl
no_ifs-append (j ∷ is) i = refl

module _ (compile : Compile) (m : IfMatcher) (k : IsReady m) where
  add_made-Ready :
      (d : Dispenser) (o : Made)
      → ((i : IfCond) → o ≡ made i → HasTest i)
      → RoundReady (add_made m d o)
  add_made-Ready d (made i) t = record {
    enabled_is = rw (no_ifs-append m.ifs i) refl;
    tests = All-append m.ifs i k.tests (t i refl);
  }
  add_made-Ready d (bad_pattern b) t = k
  add_made-Ready d (bad_operator o) t = k

  if_round-Ready : (d : Dispenser) (words : List Text) → RoundReady (if_round compile m d words)
  if_round-Ready d (a ∷ op ∷ b ∷ []) = add_made-Ready d _ λ i. new_if_cond-HasTest compile a op b i
  if_round-Ready d [] = k
  if_round-Ready d (a ∷ []) = k
  if_round-Ready d (a ∷ b ∷ []) = k
  if_round-Ready d (a ∷ b ∷ c ∷ e ∷ es) = k

  Ready-if :
      (b : Bool) (r s : Round) → RoundReady r → RoundReady s → RoundReady (if b then r else s)
  Ready-if true r s h h' = h
  Ready-if false r s h h' = h'

  op_round-Ready : (d : Dispenser) → RoundReady (op_round m d)
  unfolding op_round
  op_round-Ready d =
      let set : (b : Bool) → IsReady (record m { is_or = b }) =
        λ b. record { enabled_is = k.enabled_is; tests = k.tests } in
      let d' = (next_arg d).0 in
      let bad : Round = return (refused m (arg_err d')) in
      let or_else : Round =
        if text_eq (val d') (codes "or") then again (record m { is_or = true }) d' else bad in
      let and_else : Round =
        if text_eq (val d') (codes "and") then again (record m { is_or = false }) d' else or_else in
      Ready-if (not (next_arg d).1) bad and_else k (
        Ready-if (text_eq (val d') (codes "and")) (again (record m { is_or = false }) d') or_else
          (set false)
          (Ready-if (text_eq (val d') (codes "or")) (again (record m { is_or = true }) d') bad
            (set true) k))

  block_round-Ready : (d : Dispenser) → RoundReady (block_round compile m d)
  unfolding block_round
  block_round-Ready d =
      let r = remaining_args d in
      let op_else : Round = if text_eq (val d) (codes "if_op") then op_round m d else again m d in
      Ready-if (text_eq (val d) (codes "if")) (if_round compile m r.0 r.1) op_else
        (if_round-Ready r.0 r.1)
        (Ready-if (text_eq (val d) (codes "if_op")) (op_round m d) (again m d) (op_round-Ready d) k)

setup_from-ReturnsReady :
    (n : ℕ) (compile : Compile) (m : IfMatcher) (d : Dispenser)
    → IsReady m
    → ReturnsReady (setup_from n compile m d)
unfolding setup_from
setup_from-ReturnsReady zero compile m d k = tt
setup_from-ReturnsReady (suc n) compile m d k = elim (Bool-cases (next_block d).1) [
  | inr e ↦ rw e k
  | inl e ↦ rw e (
      on (block_round compile m (next_block d).0) (block_round-Ready compile m k (next_block d).0)
        λ m' d' k'. setup_from-ReturnsReady n compile m' d' k')
]
  where
    on :
        (r : Round)
        → RoundReady r
        → ((m' : IfMatcher) (d' : Dispenser)
            → IsReady m'
            → ReturnsReady (setup_from n compile m' d'))
        → ReturnsReady (elim r [ again m' d'' ↦ setup_from n compile m' d'' | return r' ↦ r' ])
    on (again m' d') h ih = ih m' d' h
    on (return r) h ih = h

-- Whatever the block holds, the matcher that `SetupIfMatcher` returns, beside an error too, is
-- enabled exactly if it has conditions, and every condition in it has a test.
pub setup_if_matcher-ReturnsReady :
    (n : ℕ) (compile : Compile) (d : Dispenser) → ReturnsReady (setup_if_matcher n compile d)
unfolding setup_if_matcher
setup_if_matcher-ReturnsReady n compile d =
    setup_from-ReturnsReady n compile no_conditions d (record { enabled_is = refl; tests = tt })
