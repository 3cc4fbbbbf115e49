-- ===== src/Json/Ends.antt =====
-- That `ToJSON` of caddyfile/json.go comes to an end.
use iotacaddy.Prelude.{
  ℕ, zero, suc, ◌-◌, ◌≤◌, ◌<◌, Bool, true, false, Option, none, some, List, [], ◌∷◌, map, ◌≡◌, refl,
  ap, ◌∙◌, arith, Text, codes, text_eq, length, get_elem?, ltb, ◌==◌, Bool-cases, inl, inr,
}
use iotacaddy.Lexer.Defs.{Token}
use iotacaddy.Dispenser.Defs.{
  Dispenser, new_dispenser_tokens, current, next, next_arg, next_if, holds, same_line, val,
}
use iotacaddy.Dispenser.Cursor.{holds-lt}
use iotacaddy.Telemetry.Defs.{lookup}
use iotacaddy.Parser.Defs.{ServerBlock}
use iotacaddy.Json.Defs.{
  Items, word, Lines, with_word, with_block, with_line, after_block, after_line, on_arg, on_token,
  construct_args, construct_block,
}
use iotacaddy.Json.Text.{
  EncodedServerBlock, on_rest, on_items, on_next, directive_lines, tokens_of, lines_of, body_lines,
  directives, encoded, in_front, to_json,
}

-- The tokens that are left.
abbrev left : Dispenser → ℕ
left d = length d.tokens - d.loaded

-- A call that takes a token.
abbrev Takes : Dispenser → Dispenser × Bool → Type 0
Takes d (d', false) = (left d' ≤ left d) × (d'.loaded ≡ d.loaded)
Takes d (d', true) = (left d' < left d) × (0 < d'.loaded)

next-Takes : (d : Dispenser) → Takes d (next d)
unfolding next
next-Takes d = elim (Bool-cases (ltb d.loaded (length d.tokens))) [
  | inl h ↦ rw h (ground arith, omega arith)
  | inr h ↦ rw h (omega arith, refl)
]

next_arg-Takes : (d : Dispenser) → 0 < d.loaded → Takes d (next_arg d)
unfolding next_arg next_if
next_arg-Takes d h =
    let e : (d.loaded == 0) ≡ false = ground arith in
    elim (Bool-cases (holds same_line (current d) (get_elem? d.tokens d.loaded))) [
      | inl k ↦
          let l = holds-lt same_line (current d) d.tokens d.loaded k in
          rw (e, k) (omega (arith, l), omega arith)
      | inr k ↦ rw (e, k) (omega arith, refl)
    ]

-- A result that leaves no more than `n` tokens, and of which the first one is taken.
abbrev IsBuilt {ℓ} : {A : Type ℓ} → ℕ → Option (A × Dispenser) → Type 0
IsBuilt n none = ⊥
IsBuilt n (some (x, d)) = (left d ≤ n) × (0 < d.loaded)

abbrev Builds {ℓ} : {A : Type ℓ} → ℕ → (Dispenser → Option (A × Dispenser)) → Type 0
Builds n loop = (d : Dispenser) → left d < n → 0 < d.loaded → IsBuilt (left d) (loop d)

with_word-IsBuilt :
    (n m : ℕ) (w : Text) (r : Option (Items × Dispenser))
    → n ≤ m
    → IsBuilt n r
    → IsBuilt m (with_word w r)
with_word-IsBuilt n m w none l h = h
with_word-IsBuilt n m w (some (is, d)) l (a, b) = (omega arith, b)

with_block-IsBuilt :
    (n m : ℕ) (b : Lines) (r : Option (Items × Dispenser))
    → n ≤ m
    → IsBuilt n r
    → IsBuilt m (with_block b r)
with_block-IsBuilt n m w none l h = h
with_block-IsBuilt n m w (some (is, d)) l (a, b) = (omega arith, b)

with_line-IsBuilt :
    (n m : ℕ) (is : Items) (r : Option (Lines × Dispenser))
    → n ≤ m
    → IsBuilt n r
    → IsBuilt m (with_line is r)
with_line-IsBuilt n m w none l h = h
with_line-IsBuilt n m w (some (is, d)) l (a, b) = (omega arith, b)

after_block-IsBuilt :
    (f n m : ℕ) (items : Dispenser → Option (Items × Dispenser)) (r : Option (Lines × Dispenser))
    → n ≤ m
    → n < f
    → IsBuilt n r
    → Builds f items
    → IsBuilt m (after_block items r)
after_block-IsBuilt f n m items none l k h g = h
after_block-IsBuilt f n m items (some (b, d)) l k (a, c) g =
    with_block-IsBuilt (left d) m b (items d) (omega arith) (g d (omega arith) c)

after_line-IsBuilt :
    (f n m : ℕ) (w : Text) (lines : Dispenser → Option (Lines × Dispenser))
    (r : Option (Items × Dispenser))
    → n ≤ m
    → n < f
    → IsBuilt n r
    → Builds f lines
    → IsBuilt m (after_line lines w r)
after_line-IsBuilt f n m w lines none l k h g = h
after_line-IsBuilt f n m w lines (some (is, d)) l k (a, c) g =
    with_line-IsBuilt (left d) m (word w is) (lines d) (omega arith) (g d (omega arith) c)

module _ (f : ℕ) (items : Dispenser → Option (Items × Dispenser))
    (lines : Dispenser → Option (Lines × Dispenser)) (hi : Builds f items)
    (hl : Builds f lines) where
  on_arg-IsBuilt :
      (d : Dispenser) (r : Dispenser × Bool)
      → left d < suc f
      → 0 < d.loaded
      → Takes d r
      → IsBuilt (left d) (on_arg items lines r)
  on_arg-IsBuilt d (d', false) l z (t, p) = (t, omega arith)
  on_arg-IsBuilt d (d', true) l z (t, p) = elim (Bool-cases (text_eq (val d') (codes "{"))) [
    | inl e ↦ rw e (
        after_block-IsBuilt f (left d') (left d) items (lines d') (omega arith) (omega arith)
          (hl d' (omega arith) p) hi)
    | inr e ↦ rw e (
        with_word-IsBuilt (left d') (left d) (val d') (items d') (omega arith)
          (hi d' (omega arith) p))
  ]

  on_token-IsBuilt :
      (d : Dispenser) (r : Dispenser × Bool)
      → left d < suc f
      → 0 < d.loaded
      → Takes d r
      → IsBuilt (left d) (on_token items lines r)
  on_token-IsBuilt d (d', false) l z (t, p) = (t, omega arith)
  on_token-IsBuilt d (d', true) l z (t, p) = elim (Bool-cases (text_eq (val d') (codes "}"))) [
    | inl e ↦ rw e (omega arith, p)
    | inr e ↦ rw e (
        after_line-IsBuilt f (left d') (left d) (val d') lines (items d') (omega arith)
          (omega arith) (hi d' (omega arith) p) hl)
  ]

mutual
  unfolding construct_args construct_block

  construct_args-IsBuilt : (f : ℕ) → Builds f (λ d. construct_args f d)
  construct_args-IsBuilt zero d l z = absurd (omega arith)
  construct_args-IsBuilt (suc f) d l z =
      on_arg-IsBuilt f (λ d'. construct_args f d') (λ d'. construct_block f d')
        (construct_args-IsBuilt f) (construct_block-IsBuilt f) d (next_arg d) l z
        (next_arg-Takes d z)

  construct_block-IsBuilt : (f : ℕ) → Builds f (λ d. construct_block f d)
  construct_block-IsBuilt zero d l z = absurd (omega arith)
  construct_block-IsBuilt (suc f) d l z =
      on_token-IsBuilt f (λ d'. construct_args f d') (λ d'. construct_block f d')
        (construct_args-IsBuilt f) (construct_block-IsBuilt f) d (next d) l z (next-Takes d)

-- There is a result.
abbrev Ended {ℓ} : {A : Type ℓ} → Option A → Type 0
Ended none = ⊥
Ended (some x) = Unit

on_rest-Ended : (is : Items) (r : Option Lines) → Ended r → Ended (on_rest is r)
on_rest-Ended is none h = h
on_rest-Ended is (some ls) h = h

on_items-Ended :
    (n : ℕ) (more : Dispenser → Option Lines) (w : Text) (r : Option (Items × Dispenser))
    → IsBuilt n r
    → ((d : Dispenser) → left d ≤ n → Ended (more d))
    → Ended (on_items more w r)
on_items-Ended n more w none h g = h
on_items-Ended n more w (some (is, d)) (a, b) g = on_rest-Ended (word w is) (more d) (g d a)

on_next-Ended :
    (f : ℕ) (more : Dispenser → Option Lines) (rest : Lines) (d : Dispenser) (r : Dispenser × Bool)
    → left d < suc f
    → Takes d r
    → ((d' : Dispenser) → left d' < f → Ended (more d'))
    → Ended (on_next more (λ d'. construct_args f d') rest r)
on_next-Ended f more rest d (d', false) l t g = tt
on_next-Ended f more rest d (d', true) l (t, p) g =
    on_items-Ended (left d') more (val d') (construct_args f d')
      (construct_args-IsBuilt f d' (omega arith) p) λ d'' k. g d'' (omega arith)

directive_lines-Ended :
    (f : ℕ) (d : Dispenser) (rest : Lines) → left d < f → Ended (directive_lines f d rest)
unfolding directive_lines
directive_lines-Ended zero d rest l = absurd (omega arith)
directive_lines-Ended (suc f) d rest l =
    on_next-Ended f (λ d'. directive_lines f d' rest) rest d (next d) l (next-Takes d)
      λ d' k. directive_lines-Ended f d' rest k

lines_of-Ended : (ts : List Token) (rest : Lines) → Ended (lines_of ts rest)
lines_of-Ended ts rest =
    directive_lines-Ended (suc (length ts)) (new_dispenser_tokens (codes "Caddyfile") ts) rest
      (omega arith)

body_lines-Ended : (sb : ServerBlock) (dirs : List Text) → Ended (body_lines sb dirs)
unfolding body_lines
body_lines-Ended sb [] = tt
body_lines-Ended sb (dir ∷ dirs) = after (body_lines sb dirs) (body_lines-Ended sb dirs)
  where
    after :
        (r : Option Lines)
        → Ended r
        → Ended
            (elim r [ none ↦ none | some rest ↦ lines_of (tokens_of (lookup dir sb.tokens)) rest ])
    after none h = h
    after (some rest) h = lines_of-Ended (tokens_of (lookup dir sb.tokens)) rest

encoded-Ended :
    (keys : List Text) (r : Option Lines)
    → Ended r
    → (b : EncodedServerBlock) × (encoded keys r ≡ some b) × (b.keys ≡ keys)
encoded-Ended keys none h = absurd h
encoded-Ended keys (some ls) h = (record { keys = keys; body = ls }, refl, refl)

-- The conversion of parsed server blocks comes to an end, whatever tokens they hold, also with
-- braces that do not match, and gives a block for each of them, in order and with its keys.
pub to_json-Ends :
    (sort : List Text → List Text) (sbs : List ServerBlock)
    → (bs : List EncodedServerBlock) × (to_json sort sbs ≡ some bs)
      × (map (λ b. b.keys) bs ≡ map (λ sb. sb.keys) sbs)
unfolding to_json
to_json-Ends sort [] = ([], refl, refl)
to_json-Ends sort (sb ∷ sbs) =
    let dirs = directives sort sb in
    let (b, e, k) = encoded-Ended sb.keys (body_lines sb dirs) (body_lines-Ended sb dirs) in
    let (bs, e', k') = to_json-Ends sort sbs in
    (
      b ∷ bs,
      ap (λ r. in_front r (to_json sort sbs)) e ∙ ap (λ r. in_front (some b) r) e',
      ap (λ h. h ∷ map (λ c. c.keys) bs) k ∙ ap (λ h. sb.keys ∷ h) k',
    )
