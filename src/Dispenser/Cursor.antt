-- ===== src/Dispenser/Cursor.antt =====
-- What the methods of caddyfile/dispenser.go do to the cursor, against the list of the tokens
-- that are still to come.
use iotacaddy.Prelude.{
  ℕ, zero, suc, ◌≤◌, ◌<◌, Bool, true, false, Option, none, some, List, [], ◌∷◌, map, subst, ◌≡◌,
  refl, ◌∙◌, ltb, if◌then◌else◌, inl, inr, Bool-cases, ltb→lt, arith, Text, length, get_elem?, drop,
  drop-get_elem?, get_elem?-lt, text_eq,
}
use iotacaddy.Lexer.Defs.{Token}
use iotacaddy.Dispenser.Defs.{
  Dispenser, new_dispenser_tokens, current, advance, step_back, next, next_if, same_line,
  later_line, next_arg, next_line, next_block, enter_block, val, holds, close_brace, open_brace,
  args, remaining_args, remaining_args_from,
}

-- The tokens that are still to come.
abbrev pub ahead : Dispenser → List Token
ahead d = drop d.loaded d.tokens

-- `Next` as a list sees it: nothing is left, or the head becomes the current token.
abbrev pub Nexts : Dispenser → List Token → Dispenser × Bool → Type 0
Nexts d [] r = r ≡ (d, false)
Nexts d (t ∷ ts) r = (r ≡ (advance d, true)) × (current r.0 ≡ some t) × (ahead r.0 ≡ ts)

drop_nil {ℓ} : {A : Type ℓ} (n : ℕ) (xs : List A) → length xs ≤ n → drop n xs ≡ []
drop_nil zero [] h = refl
drop_nil zero (x ∷ xs) h = absurd (omega arith)
drop_nil (suc n) [] h = refl
drop_nil (suc n) (x ∷ xs) h = drop_nil n xs (omega arith)

-- `Next` takes the first of the tokens that are still to come, and reports the end exactly when
-- there is none, where it changes nothing.
pub next-Nexts : (d : Dispenser) → Nexts d (ahead d) (next d)
unfolding next
next-Nexts d = elim (Bool-cases (ltb d.loaded (length d.tokens))) [
  | inl h ↦
      let (t, e) = get_elem?-lt d.tokens d.loaded (ltb→lt _ _ h) in
      rw (drop-get_elem? d.tokens d.loaded t e) (rw h (refl, e, refl))
  | inr h ↦ rw (drop_nil d.loaded d.tokens (ground arith)) (rw h refl)
]

-- A loop over `Next` that collects the current tokens, as long as there are any.
pub drain : ℕ → Dispenser → List (Option Token)
drain zero d = []
drain (suc f) d =
    let (d', more) = next d in let rest = drain f d' in if more then current d' ∷ rest else []

drain-ahead :
    (f : ℕ) (d : Dispenser) (ts : List Token)
    → ahead d ≡ ts
    → length ts < f
    → drain f d ≡ map some ts
unfolding drain
drain-ahead zero d ts e h = absurd (omega arith)
drain-ahead (suc f) d [] e h = let n = subst (λ l. Nexts d l (next d)) e (next-Nexts d) in rw n
drain-ahead (suc f) d (t ∷ ts) e h =
    let n = subst (λ l. Nexts d l (next d)) e (next-Nexts d) in
    rw (n.0) (cc (rw n.0 at n.1, drain-ahead f (advance d) ts (rw n.0 at n.2) (omega arith)))

-- What a method may do to a dispenser of a file with tokens: move the cursor within bounds.
pub record Moved (d d' : Dispenser) : Type 0 where
  pub tokens_is : d'.tokens ≡ d.tokens
  pub filename_is : d'.filename ≡ d.filename
  pub within : d'.loaded ≤ length d.tokens

pub record IsValid (d : Dispenser) : Type 0 where
  pub nonempty : 0 < length d.tokens
  pub within : d.loaded ≤ length d.tokens

Moved-trans : {a b c : Dispenser} → Moved a b → Moved b c → Moved a c
Moved-trans {c} h k = record {
  tokens_is = k.tokens_is ∙ h.tokens_is;
  filename_is = k.filename_is ∙ h.filename_is;
  within = subst (λ ts. c.loaded ≤ length ts) h.tokens_is k.within;
}

Moved-IsValid : {d d' : Dispenser} → IsValid d → Moved d d' → IsValid d'
Moved-IsValid {d} {d'} v m = record {
  nonempty = rw m.tokens_is v.nonempty;
  within = rw m.tokens_is m.within;
}

pub holds-lt :
    (test : Token → Token → Bool) (o : Option Token) (ts : List Token) (i : ℕ)
    → holds test o (get_elem? ts i) ≡ true
    → i < length ts
holds-lt test (some t) [] i h = absurd (cc)
holds-lt test none [] i h = absurd (cc)
holds-lt test o (x ∷ ts) zero h = omega arith
holds-lt test o (x ∷ ts) (suc i) h = omega (arith, holds-lt test o ts i h)

module _ (d : Dispenser) (v : IsValid d) where
  next-Moved : Moved d (next d).0
  unfolding next
  next-Moved = ground (arith, v.within)

  next_if-Moved : (test : Token → Token → Bool) → Moved d (next_if test d).0
  unfolding next_if
  next_if-Moved test =
      ground (arith, v.within, v.nonempty, holds-lt test (current d) d.tokens d.loaded)

  next_if-pos :
      (test : Token → Token → Bool) → (next_if test d).1 ≡ true → (next_if test d).0 ≡ advance d
  unfolding next_if
  next_if-pos test h = ground arith

next_arg-Moved : (d : Dispenser) → IsValid d → Moved d (next_arg d).0
unfolding next_arg
next_arg-Moved d v = next_if-Moved d v same_line

next_line-Moved : (d : Dispenser) → IsValid d → Moved d (next_line d).0
unfolding next_line
next_line-Moved d v = next_if-Moved d v later_line

step_back-Moved : (d d' : Dispenser) → Moved d d' → Moved d (step_back d')
step_back-Moved d d' m = record {
  tokens_is = m.tokens_is;
  filename_is = m.filename_is;
  within = omega (arith, m.within);
}

enter_block-Moved : (d : Dispenser) → IsValid d → Moved d (enter_block d).0
unfolding enter_block
enter_block-Moved d v =
    let m = next-Moved d v in
    elim (Bool-cases (text_eq (val (next d).0) close_brace)) [
      | inl h ↦ rw h m
      | inr h ↦
          rw h (record { tokens_is = m.tokens_is; filename_is = m.filename_is; within = m.within })
    ]

next_block-Moved : (d : Dispenser) → IsValid d → Moved d (next_block d).0
unfolding next_block
next_block-Moved d v = ground (
  arith,
  next-Moved d v,
  next_arg-Moved d v,
  step_back-Moved d (next_arg d).0,
  Moved-trans {a = d} {b = (next_arg d).0} {c = (enter_block (next_arg d).0).0} (next_arg-Moved d v)
      (enter_block-Moved (next_arg d).0 (Moved-IsValid v (next_arg-Moved d v))),
)

args-Moved : (d : Dispenser) (targets : List Text) → IsValid d → Moved d (args d targets).0
unfolding args
args-Moved d [] v = record { tokens_is = refl; filename_is = refl; within = v.within }
args-Moved d (t ∷ ts) v =
    let m = next_arg-Moved d v in
    let rest = Moved-trans m (args-Moved (next_arg d).0 ts (Moved-IsValid v m)) in
    elim (Bool-cases (next_arg d).1) [ inl h ↦ rw h rest | inr h ↦ rw h m ]

remaining_args_from-Moved :
    (f : ℕ) (d : Dispenser) → IsValid d → Moved d (remaining_args_from f d).0
unfolding remaining_args_from
remaining_args_from-Moved zero d v = record {
  tokens_is = refl;
  filename_is = refl;
  within = v.within;
}
remaining_args_from-Moved (suc f) d v =
    let m = next_arg-Moved d v in
    let rest = Moved-trans m (remaining_args_from-Moved f (next_arg d).0 (Moved-IsValid v m)) in
    elim (Bool-cases (next_arg d).1) [
      | inl h ↦ rw h (elim (Bool-cases (text_eq (val (next_arg d).0) open_brace)) [
        | inl b ↦ rw b (step_back-Moved d (next_arg d).0 m)
        | inr b ↦ rw b rest
      ])
      | inr h ↦ rw h m
    ]

-- From a dispenser with tokens and the cursor in bounds, every method leaves the tokens and the
-- file name as they are, and the cursor in bounds.
pub methods-Moved :
    (d : Dispenser) (targets : List Text)
    → IsValid d
    → Moved d (next d).0
      × Moved d (next_arg d).0
      × Moved d (next_line d).0
      × Moved d (next_block d).0
      × Moved d (args d targets).0
      × Moved d (remaining_args d).0
unfolding remaining_args
methods-Moved d targets v = (
  next-Moved d v,
  next_arg-Moved d v,
  next_line-Moved d v,
  next_block-Moved d v,
  args-Moved d targets v,
  remaining_args_from-Moved _ d v,
)

-- `Next` in a loop dispenses every token once, in order, and then stops.
pub drain-new :
    (name : Text) (ts : List Token) (f : ℕ)
    → length ts < f
    → drain f (new_dispenser_tokens name ts) ≡ map some ts
drain-new name ts f h = drain-ahead f (new_dispenser_tokens name ts) ts refl h

-- On a dispenser with no tokens `NextArg` and `NextLine` report a token, and the cursor leaves the
-- bounds.
pub next_arg_nil :
    (name : Text) (n : ℕ)
    → let d = record (new_dispenser_tokens name []) { nesting = n } in
      (next_arg d ≡ (advance d, true))
      × (next_line d ≡ (advance d, true))
      × (current (advance d) ≡ none)
unfolding next_arg next_line next_if
next_arg_nil name n = (refl, refl, refl)
