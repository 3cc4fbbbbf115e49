-- ===== src/Replacer/Cuts.antt =====
-- The placeholders that `Replace` of caddyhttp/httpserver/replacer.go cuts out of a text.
use iotacaddy.Prelude.{
  ℕ, zero, suc, ◌+◌, ◌-◌, ◌<◌, Bool, true, false, Option, none, some, [], ◌∷◌, ◌≡◌, refl, sym, ap,
  ◌∙◌, ◌==◌, ==_iff, arith, Text, length, take, drop, get_elem?, length-drop, Bool-cases, inl, inr,
}
use iotacaddy.EnvVars.Defs.{has_prefix, replace_from, slice}
use iotacaddy.Replacer.Template.{unescape_braces, find_unescaped, cut, next_placeholder}

-- The last rune.
abbrev pub last_rune : Text → Option ℕ
last_rune [] = none
last_rune (c ∷ []) = some c
last_rune (c ∷ d ∷ s) = last_rune (d ∷ s)

last_rune-cons : (x c : ℕ) (s : Text) → last_rune s ≡ some x → last_rune (c ∷ s) ≡ some x
last_rune-cons x c [] h = absurd (cc)
last_rune-cons x c (d ∷ s) h = h

-- A text in braces.
pub record IsPlaced (s : Text) : Type 0 where
  pub opening : get_elem? s 0 ≡ some b'{'
  pub closing : last_rune s ≡ some b'}'

-- `strings.Replace` of an escaped brace.
abbrev pub unescape : ℕ → Text → Text
unescape brace s = replace_from 0 s (b'\\' ∷ brace ∷ []) (brace ∷ [])

pub unescape-escaped :
    (brace c d : ℕ) (s : Text)
    → has_prefix (c ∷ d ∷ s) (b'\\' ∷ brace ∷ []) ≡ true
    → unescape brace (c ∷ d ∷ s) ≡ brace ∷ unescape brace s
unfolding replace_from
unescape-escaped brace c d s e =
    ap (λ b. elim b [ true ↦ brace ∷ unescape brace s | false ↦ c ∷ unescape brace (d ∷ s) ]) e

pub unescape-other :
    (brace c : ℕ) (s : Text)
    → has_prefix (c ∷ s) (b'\\' ∷ brace ∷ []) ≡ false
    → unescape brace (c ∷ s) ≡ c ∷ unescape brace s
unfolding replace_from
unescape-other brace c s e =
    ap
      (λ b. elim b [
        | true ↦ brace ∷ replace_from 1 s (b'\\' ∷ brace ∷ []) (brace ∷ [])
        | false ↦ c ∷ unescape brace s
      ])
      e

same_brace :
    (brace c d : ℕ) (s : Text) → has_prefix (c ∷ d ∷ s) (b'\\' ∷ brace ∷ []) ≡ true → d ≡ brace
unfolding has_prefix
same_brace brace c d s e = ground (arith, ==_iff d brace)

single : (brace c : ℕ) → has_prefix (c ∷ []) (b'\\' ∷ brace ∷ []) ≡ false
unfolding has_prefix
single brace c = ground arith

pub unescape-nil : (brace : ℕ) → unescape brace [] ≡ []
unfolding replace_from
unescape-nil brace = refl

-- What follows an escaped brace, if its own last rune is kept.
last_rune-escaped :
    (brace x d : ℕ) (s : Text)
    → d ≡ brace
    → last_rune (d ∷ s) ≡ some x
    → (last_rune s ≡ some x → last_rune (unescape brace s) ≡ some x)
    → last_rune (brace ∷ unescape brace s) ≡ some x
last_rune-escaped brace x d [] q h g = rw (unescape-nil brace) (ap some (sym q) ∙ h)
last_rune-escaped brace x d (e ∷ s) q h g = last_rune-cons x brace (unescape brace (e ∷ s)) (g h)

-- To unescape a brace keeps the last rune, and the first if it is no backslash.
last_rune-unescape :
    (brace x : ℕ) (s : Text) → last_rune s ≡ some x → last_rune (unescape brace s) ≡ some x
last_rune-unescape brace x [] h = absurd (cc)
last_rune-unescape brace x (c ∷ []) h =
    rw (unescape-other brace c [] (single brace c), unescape-nil brace) h
last_rune-unescape brace x (c ∷ d ∷ s) h =
    elim (Bool-cases (has_prefix (c ∷ d ∷ s) (b'\\' ∷ brace ∷ []))) [
      | inl e ↦ rw (unescape-escaped brace c d s e) (
          last_rune-escaped brace x d s (same_brace brace c d s e) h
            λ g. last_rune-unescape brace x s g)
      | inr e ↦
          rw (unescape-other brace c (d ∷ s) e)
            (last_rune-cons x c (unescape brace (d ∷ s)) (last_rune-unescape brace x (d ∷ s) h))
    ]

first-unescape :
    (brace : ℕ) (s : Text) → get_elem? s 0 ≡ some b'{' → get_elem? (unescape brace s) 0 ≡ some b'{'
unfolding replace_from has_prefix
first-unescape brace [] h = absurd (cc)
first-unescape brace (c ∷ s) h = let q : c ≡ b'{' = cc in rw q refl

pub unescape_braces-IsPlaced : (s : Text) → IsPlaced s → IsPlaced (unescape_braces s)
unfolding unescape_braces
unescape_braces-IsPlaced s p = record {
  opening = first-unescape b'}' (unescape b'{' s) (first-unescape b'{' s p.opening);
  closing =
      last_rune-unescape b'}' b'}' (unescape b'{' s) (last_rune-unescape b'{' b'}' s p.closing);
}

-- The rune that is found, and the text that is cut out behind it.
find_unescaped-get_elem? :
    (brace : ℕ) (escaped : Bool) (s : Text) (i : ℕ)
    → find_unescaped brace escaped s ≡ some i
    → get_elem? s i ≡ some brace
unfolding find_unescaped
find_unescaped-get_elem? brace escaped [] i h = absurd (cc)
find_unescaped-get_elem? brace escaped (c ∷ s) zero h = ground (arith, ==_iff c brace)
find_unescaped-get_elem? brace escaped (c ∷ s) (suc i) h = ground (
  arith,
  find_unescaped-get_elem? brace false s i,
  find_unescaped-get_elem? brace (c == b'\\') s i,
)

last_rune-take : (x n : ℕ) (s : Text) → get_elem? s n ≡ some x → last_rune (take (suc n) s) ≡ some x
last_rune-take x n [] h = absurd (cc)
last_rune-take x zero (c ∷ s) h = h
last_rune-take x (suc n) (c ∷ s) h = last_rune-cons x c (take (suc n) s) (last_rune-take x n s h)

first-drop : (n : ℕ) (s : Text) → get_elem? (drop n s) 0 ≡ get_elem? s n
first-drop zero [] = refl
first-drop zero (c ∷ s) = refl
first-drop (suc n) [] = refl
first-drop (suc n) (c ∷ s) = first-drop n s

first-take : (n : ℕ) (s : Text) → get_elem? (take (suc n) s) 0 ≡ get_elem? s 0
first-take n [] = refl
first-take n (c ∷ s) = refl

in_bounds : (x n : ℕ) (s : Text) → get_elem? s n ≡ some x → n < length s
in_bounds x n [] h = absurd (cc)
in_bounds x zero (c ∷ s) h = omega arith
in_bounds x (suc n) (c ∷ s) h = omega (arith, in_bounds x n s h)

abbrev pub IsCut : Text → Option (Text × Text × Text) → Type 0
IsCut s none = Unit
IsCut s (some (before, placeholder, rest)) = IsPlaced placeholder × (length rest < length s)

cut-IsCut :
    (s : Text) (start : ℕ) (n : Option ℕ)
    → get_elem? s start ≡ some b'{'
    → find_unescaped b'}' false (drop start s) ≡ n
    → IsCut s (cut s start n)
cut-IsCut s start none h g = tt
cut-IsCut s start (some n) h g =
    let end = find_unescaped-get_elem? b'}' false (drop start s) n g in
    (placed end, omega (arith, in_bounds b'{' start s h, length-drop (start + n + 1) s))
  where
    placed : get_elem? (drop start s) n ≡ some b'}' → IsPlaced (slice s start (start + n + 1))
    placed end =
        let e : start + n + 1 - start ≡ suc n = omega arith in
        rw e (record {
          opening = first-take n (drop start s) ∙ first-drop start s ∙ h;
          closing = last_rune-take b'}' n (drop start s) end;
        })

pub next_placeholder-IsCut : (s : Text) → IsCut s (next_placeholder s)
unfolding next_placeholder
next_placeholder-IsCut s = start_at (find_unescaped b'{' false s) refl
  where
    start_at :
        (i : Option ℕ)
        → find_unescaped b'{' false s ≡ i
        → IsCut s (elim i [
          | none ↦ none
          | some start ↦ cut s start (find_unescaped b'}' false (drop start s))
        ])
    start_at none h = tt
    start_at (some start) h =
        cut-IsCut s start (find_unescaped b'}' false (drop start s))
          (find_unescaped-get_elem? b'{' false s start h) refl
