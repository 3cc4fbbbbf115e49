-- ===== src/Dispenser/Args.antt =====
-- `RemainingArgs` of caddyfile/dispenser.go: the arguments of a line.
use iotacaddy.Prelude.{
  ℕ, zero, suc, ◌+◌, ◌-◌, ◌≤◌, ◌<◌, true, false, not, ◌&&◌, none, some, List, [], ◌∷◌, map, ◌≡◌,
  refl, if◌then◌else◌, inl, inr, Bool-cases, arith, length, get_elem?, drop, text_eq, length-drop,
}
use iotacaddy.Lexer.Defs.{Token}
use iotacaddy.Dispenser.Defs.{
  Dispenser, current, advance, next_if, same_line, next_arg, val, open_brace, remaining_args,
  remaining_args_from,
}
use iotacaddy.Dispenser.Cursor.{ahead}

-- The arguments that stand behind the token `t`: the longest run of tokens, each on the line on
-- which the one before it ends, up to an open brace.
abbrev pub line_args : Token → List Token → List Token
line_args t [] = []
line_args t (u ∷ us) =
    if same_line t u && not (text_eq u.text open_brace) then u ∷ line_args u us else []

abbrev skip : ℕ → Dispenser → Dispenser
skip n d = record d { loaded = n + d.loaded }

ahead_cons :
    {A : Type 0} (xs : List A) (i : ℕ) (x : A) (r : List A)
    → drop i xs ≡ x ∷ r
    → (get_elem? xs i ≡ some x) × (drop (suc i) xs ≡ r)
ahead_cons [] zero x r h = absurd (cc)
ahead_cons [] (suc i) x r h = absurd (cc)
ahead_cons (y ∷ xs) zero x r h = ground arith
ahead_cons (y ∷ xs) (suc i) x r h = ahead_cons xs i x r h

ahead_nil : {A : Type 0} (xs : List A) (i : ℕ) → drop i xs ≡ [] → get_elem? xs i ≡ none
ahead_nil [] i h = refl
ahead_nil (x ∷ xs) zero h = absurd (cc)
ahead_nil (x ∷ xs) (suc i) h = ahead_nil xs i h

next_arg_end :
    (d : Dispenser) (t : Token) → current d ≡ some t → ahead d ≡ [] → next_arg d ≡ (d, false)
unfolding next_arg next_if
next_arg_end d t c a = ground (arith, ahead_nil d.tokens d.loaded a)

next_arg_more :
    (d : Dispenser) (t u : Token) (us : List Token)
    → current d ≡ some t
    → ahead d ≡ u ∷ us
    → next_arg d ≡ (if same_line t u then (advance d, true) else (d, false))
unfolding next_arg next_if
next_arg_more d t u us c a = ground (arith, ahead_cons d.tokens d.loaded u us a)

remaining_args_from-line_args :
    (f : ℕ) (d : Dispenser) (t : Token) (us : List Token)
    → current d ≡ some t
    → ahead d ≡ us
    → length us < f
    → remaining_args_from f d
      ≡ (skip (length (line_args t us)) d, map (λ (u : Token). u.text) (line_args t us))
unfolding remaining_args_from val
remaining_args_from-line_args zero d t us c a h = absurd (omega arith)
remaining_args_from-line_args (suc f) d t [] c a h = rw (next_arg_end d t c a) (ground arith)
remaining_args_from-line_args (suc f) d t (u ∷ us) c a h =
    let (here, behind) = ahead_cons d.tokens d.loaded u us a in
    let ih = remaining_args_from-line_args f (advance d) u us here behind (omega arith) in
    elim (Bool-cases (same_line t u)) [
      | inl s ↦ ground (arith, next_arg_more d t u us c a, here, ih)
      | inr s ↦ ground (arith, next_arg_more d t u us c a)
    ]

-- `RemainingArgs`, with a token loaded, returns the texts of the arguments behind it, and moves
-- the cursor to the last of them.
pub remaining_args-line_args :
    (d : Dispenser) (t : Token)
    → current d ≡ some t
    → d.loaded ≤ length d.tokens
    → remaining_args d ≡ (
      record d { loaded = length (line_args t (ahead d)) + d.loaded },
      map (λ (u : Token). u.text) (line_args t (ahead d)),
    )
unfolding remaining_args
remaining_args-line_args d t c w =
    remaining_args_from-line_args (length d.tokens + 2 - d.loaded) d t (ahead d) c refl
      (omega (arith, length-drop d.loaded d.tokens))
