-- ===== src/Conditions/Meaning.antt =====
-- The truth of the conditions of caddyhttp/httpserver/condition.go.
use iotacaddy.Prelude.{
  Bool, true, false, not, Option, none, some, List, [], ◌∷◌, ◌++◌, ◌≡◌, refl, sym, ◌∙◌, ◌⊎◌, inl,
  inr, ◌↔◌, if◌then◌else◌, Bool-cases, arith, Text, text_eq, text_eq_iff, All,
}
use iotacaddy.EnvVars.Defs.{has_prefix}
use iotacaddy.Conditions.Defs.{
  Compile, not_prefix, IfCond, made, contains, has_suffix, with_pattern, with_operator, new_if_cond,
  Replacing, replaced, operand, is_true, IfMatcher, all_true, any_true, match,
}
use iotacaddy.Conditions.Operators.{
  Operator, is_op, not_op, has_op, starts_with_op, ends_with_op, matches_op, name, Relates,
  has_prefix_iff, contains_iff, has_suffix_iff, not_eq_iff,
}

-- A condition as it is written: an operator, with `not_` in front of its name or not, and operands.
pub record Condition : Type 0 where
  pub a : Text
  pub negated : Bool
  pub operator : Operator
  pub b : Text

abbrev pub written : Condition → Text
written c = if c.negated then not_prefix ++ name c.operator else name c.operator

-- The second operand of a test: a pattern is not replaced.
abbrev pub second : Replacing → Operator → Text → Text
second r is_op b = replaced r b
second r not_op b = replaced r b
second r has_op b = replaced r b
second r starts_with_op b = replaced r b
second r ends_with_op b = replaced r b
second r matches_op b = b

abbrev pub Related : Compile → Replacing → Condition → Type 0
Related compile r c = Relates compile c.operator (replaced r c.a) (second r c.operator c.b)

-- What a condition says of a request.
abbrev pub Holds : Compile → Replacing → Condition → Type 0
Holds compile r c = if c.negated then ¬ (Related compile r c) else Related compile r c

-- The conditions that `new_if_cond` makes of those that are written.
abbrev pub AreMade : Compile → List Condition → List IfCond → Type 0
AreMade compile [] [] = Unit
AreMade compile [] (i ∷ is) = ⊥
AreMade compile (c ∷ cs) [] = ⊥
AreMade compile (c ∷ cs) (i ∷ is) =
    (new_if_cond compile c.a (written c) c.b ≡ made i) × AreMade compile cs is

-- Some condition of the list holds.
abbrev pub Any : (Condition → Type 0) → List Condition → Type 0
Any P [] = ⊥
Any P (c ∷ cs) = P c ⊎ Any P cs

abbrev with_test : Condition → (Text → Text → Bool) → IfCond
with_test c f = record { a = c.a; op = name c.operator; b = c.b; neg = c.negated; f = some f }

abbrev untested : Condition → IfCond
untested c = record { a = c.a; op = name c.operator; b = c.b; neg = c.negated; f = none }

abbrev condition : Text → Bool → Operator → Text → Condition
condition a n o b = record { a = a; negated = n; operator = o; b = b }

-- A condition has a test, which says what its operator says.
abbrev Tests : Compile → Condition → IfCond → Type 0
Tests compile c i =
    (f : Text → Text → Bool) × (i ≡ with_test c f)
    × ((r : Replacing)
        → (f (replaced r c.a) (operand (with_test c f) r) ≡ true) ↔ Related compile r c)

made-injective : {i j : IfCond} → made i ≡ made j → j ≡ i
made-injective h = cc

pattern_test :
    (compile : Compile) (a : Text) (n : Bool) (b : Text) (o : Option (Text → Bool)) (i : IfCond)
    → compile b ≡ o
    → with_pattern (untested (condition a n matches_op b)) o ≡ made i
    → Tests compile (condition a n matches_op b) i
unfolding text_eq
pattern_test compile a n b none i e h = absurd (cc)
pattern_test compile a n b (some m) i e h =
    (λ x y. m x, made-injective h, λ r. (λ t. (m, e, t), λ (m', e', t). cc))

operator_test :
    (compile : Compile) (a : Text) (n : Bool) (o : Operator) (b : Text) (i : IfCond)
    → with_operator compile (untested (condition a n o b)) ≡ made i
    → Tests compile (condition a n o b) i
unfolding with_operator text_eq
operator_test compile a n is_op b i h =
    (text_eq, made-injective h, λ r. text_eq_iff (replaced r a) (replaced r b))
operator_test compile a n not_op b i h =
    (λ x y. not (text_eq x y), made-injective h, λ r. not_eq_iff (replaced r a) (replaced r b))
operator_test compile a n has_op b i h =
    (contains, made-injective h, λ r. contains_iff compile (replaced r a) (replaced r b))
operator_test compile a n starts_with_op b i h =
    (has_prefix, made-injective h, λ r. has_prefix_iff compile (replaced r a) (replaced r b))
operator_test compile a n ends_with_op b i h =
    (has_suffix, made-injective h, λ r. has_suffix_iff compile (replaced r a) (replaced r b))
operator_test compile a n matches_op b i h = pattern_test compile a n b (compile b) i refl h

written_operator :
    (compile : Compile) (a : Text) (n : Bool) (o : Operator) (b : Text)
    → new_if_cond compile a (written (condition a n o b)) b
      ≡ with_operator compile (untested (condition a n o b))
unfolding new_if_cond has_prefix
written_operator compile a true o b = refl
written_operator compile a false is_op b = refl
written_operator compile a false not_op b = refl
written_operator compile a false has_op b = refl
written_operator compile a false starts_with_op b = refl
written_operator compile a false ends_with_op b = refl
written_operator compile a false matches_op b = refl

not_iff : {P : Type 0} {b : Bool} → (b ≡ true) ↔ P → (not b ≡ true) ↔ ¬ P
not_iff {b = b} (f, g) = (
  λ h p. let e = g p in absurd (cc),
  λ n. elim (Bool-cases b) [ inl e ↦ absurd (n (f e)) | inr e ↦ rw e refl ],
)

test-Holds :
    (compile : Compile) (a : Text) (n : Bool) (o : Operator) (b : Text) (i : IfCond) (r : Replacing)
    → Tests compile (condition a n o b) i
    → (is_true i r ≡ true) ↔ Holds compile r (condition a n o b)
unfolding is_true
test-Holds compile a true o b i r (f, e, t) = rw e (not_iff (t r))
test-Holds compile a false o b i r (f, e, t) = rw e (t r)

is_true-Holds :
    (compile : Compile) (c : Condition) (i : IfCond) (r : Replacing)
    → new_if_cond compile c.a (written c) c.b ≡ made i
    → (is_true i r ≡ true) ↔ Holds compile r c
is_true-Holds compile c i r h =
    let e = written_operator compile c.a c.negated c.operator c.b in
    test-Holds compile c.a c.negated c.operator c.b i r
      (operator_test compile c.a c.negated c.operator c.b i (sym e ∙ h))

all_true-All :
    (compile : Compile) (cs : List Condition) (is : List IfCond) (r : Replacing)
    → AreMade compile cs is
    → (all_true is r ≡ true) ↔ All (Holds compile r) cs
unfolding all_true
all_true-All compile [] [] r h = (λ h. tt, λ h. refl)
all_true-All compile [] (i ∷ is) r h = absurd h
all_true-All compile (c ∷ cs) [] r h = absurd h
all_true-All compile (c ∷ cs) (i ∷ is) r (m, ms) =
    let ih = all_true-All compile cs is r ms in
    let t = is_true-Holds compile c i r m in
    (
      λ h. (t.0 (ground arith), ih.0 (ground arith)),
      λ (p, h). let e = ih.1 h in let e' = t.1 p in ground arith,
    )

any_true-Any :
    (compile : Compile) (cs : List Condition) (is : List IfCond) (r : Replacing)
    → AreMade compile cs is
    → (any_true is r ≡ true) ↔ Any (Holds compile r) cs
unfolding any_true
any_true-Any compile [] [] r h = (λ h. absurd (cc), λ h. absurd h)
any_true-Any compile [] (i ∷ is) r h = absurd h
any_true-Any compile (c ∷ cs) [] r h = absurd h
any_true-Any compile (c ∷ cs) (i ∷ is) r (m, ms) =
    let ih = any_true-Any compile cs is r ms in
    let t = is_true-Holds compile c i r m in
    (
      λ h. elim (Bool-cases (is_true i r)) [
        | inl e ↦ inl (t.0 e)
        | inr e ↦ inr (ih.0 (ground arith))
      ],
      λ h. elim h [
        | inl p ↦ let e = t.1 p in ground arith
        | inr q ↦ let e = ih.1 q in ground arith
      ],
    )

-- What the conditions say together: all of them, or, after `if_op or`, one of them.
abbrev pub Says : Compile → IfMatcher → Replacing → List Condition → Type 0
Says compile m r cs = if m.is_or then Any (Holds compile r) cs else All (Holds compile r) cs

-- A matcher whose conditions were made of written ones matches a request exactly if all of these
-- hold, or, if it was set to `or`, exactly if one of them does. A condition holds if its operator
-- relates its operands, as the request replaces them (but for a pattern), and with `not_` in
-- front if it does not: `is` and `not` are equality and its negation, `has`, `starts_with` and
-- `ends_with` say that the second operand is a part, a start or an end of the first, and `match`
-- that the compiled pattern matches.
pub match-Says :
    (compile : Compile) (m : IfMatcher) (r : Replacing) (cs : List Condition)
    → AreMade compile cs m.ifs
    → (match m r ≡ true) ↔ Says compile m r cs
unfolding match
match-Says compile m r cs h = elim (Bool-cases m.is_or) [
  | inl e ↦ rw (e, match) (any_true-Any compile cs m.ifs r h)
  | inr e ↦ rw (e, match) (all_true-All compile cs m.ifs r h)
]
