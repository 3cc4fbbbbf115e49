-- ===== src/Replacer/Plain.antt =====
-- Texts without braces under `Replace` of caddyhttp/httpserver/replacer.go.
use iotacaddy.Prelude.{
  ℕ, suc, ◌+◌, ◌-◌, Bool, true, false, none, some, [], ◌∷◌, ◌++◌, ◌≡◌, ◌≢◌, refl, sym, ap, ◌∙◌,
  append-nil, append_assoc, ◌==◌, ==_iff, arith, Text, length, take, drop, length-append,
  take-length_append, drop-length_append, All,
}
use iotacaddy.EnvVars.Defs.{has_prefix, suc?, slice}
use iotacaddy.Replacer.Template.{
  unescape_braces, find_unescaped, cut, next_placeholder, trim_backslash, has_brace,
}
use iotacaddy.Replacer.Cuts.{IsPlaced, last_rune, unescape, unescape-nil, unescape-other}

-- A text without braces and backslashes.
abbrev pub IsPlain : Text → Type 0
IsPlain = All (λ c. (c ≢ b'{') × (c ≢ b'}') × (c ≢ b'\\'))

abbrev pub placed : Text → Text
placed k = b'{' ∷ (k ++ (b'}' ∷ []))

find_unescaped-plain :
    (brace : ℕ) (p s : Text)
    → All (λ c. (c ≢ brace) × (c ≢ b'\\')) p
    → find_unescaped brace false (p ++ (brace ∷ s)) ≡ some (length p)
unfolding find_unescaped
find_unescaped-plain brace [] s h = ground (arith, ==_iff brace brace)
find_unescaped-plain brace (c ∷ p) s ((a, b), h) =
    let e : (c == brace) ≡ false = ground (arith, ==_iff c brace) in
    let f : (c == b'\\') ≡ false = ground (arith, ==_iff c b'\\') in
    rw (e, f) (ap suc? (find_unescaped-plain brace p s h))

without_opening : (p : Text) → IsPlain p → All (λ c. (c ≢ b'{') × (c ≢ b'\\')) p
without_opening [] h = tt
without_opening (c ∷ p) ((a, b, d), h) = ((a, d), without_opening p h)

without_closing : (p : Text) → IsPlain p → All (λ c. (c ≢ b'}') × (c ≢ b'\\')) p
without_closing [] h = tt
without_closing (c ∷ p) ((a, b, d), h) = ((b, d), without_closing p h)

unescape-plain :
    (brace : ℕ) (p s : Text) → IsPlain p → unescape brace (p ++ s) ≡ p ++ unescape brace s
unfolding has_prefix
unescape-plain brace [] s h = refl
unescape-plain brace (c ∷ p) s ((a, b, d), h) =
    unescape-other brace c (p ++ s) (ground (arith, ==_iff c b'\\'))
    ∙ ap (λ q. c ∷ q) (unescape-plain brace p s h)

unescape-same : (brace : ℕ) (p : Text) → IsPlain p → unescape brace p ≡ p
unescape-same brace p h =
    ap (λ q. unescape brace q) (sym (append-nil p))
    ∙ unescape-plain brace p [] h
    ∙ ap (λ q. p ++ q) (unescape-nil brace)
    ∙ append-nil p

pub unescape_braces-plain : (p : Text) → IsPlain p → unescape_braces p ≡ p
unfolding unescape_braces
unescape_braces-plain p h =
    ap (λ q. unescape b'}' q) (unescape-same b'{' p h) ∙ unescape-same b'}' p h

unescape-placed : (brace : ℕ) (k : Text) → IsPlain k → unescape brace (placed k) ≡ placed k
unfolding has_prefix
unescape-placed brace k h =
    unescape-other brace b'{' (k ++ (b'}' ∷ [])) refl
    ∙ ap (λ q. b'{' ∷ q)
        (unescape-plain brace k (b'}' ∷ []) h
          ∙ ap (λ q. k ++ q)
              (unescape-other brace b'}' [] refl ∙ ap (λ q. b'}' ∷ q) (unescape-nil brace)))

pub unescape_braces-placed : (k : Text) → IsPlain k → unescape_braces (placed k) ≡ placed k
unfolding unescape_braces
unescape_braces-placed k h =
    ap (λ q. unescape b'}' q) (unescape-placed b'{' k h) ∙ unescape-placed b'}' k h

pub trim_backslash-plain : (p : Text) → IsPlain p → trim_backslash p ≡ p
trim_backslash-plain [] h = refl
trim_backslash-plain (c ∷ p) ((a, b, d), h) = ground (arith, ==_iff c b'\\')

last_rune-snoc : (x : ℕ) (s : Text) → last_rune (s ++ (x ∷ [])) ≡ some x
last_rune-snoc x [] = refl
last_rune-snoc x (c ∷ []) = refl
last_rune-snoc x (c ∷ d ∷ s) = last_rune-snoc x (d ∷ s)

pub placed-IsPlaced : (k : Text) → IsPlaced (placed k)
placed-IsPlaced k = record { opening = refl; closing = last_rune-snoc b'}' (b'{' ∷ k) }

pub has_brace-append : (l s : Text) → has_brace s ≡ true → has_brace (l ++ s) ≡ true
unfolding has_brace
has_brace-append [] s h = h
has_brace-append (c ∷ l) s h = ground (arith, has_brace-append l s h)

pub has_brace-plain : (p : Text) → IsPlain p → has_brace p ≡ false
unfolding has_brace
has_brace-plain [] h = refl
has_brace-plain (c ∷ p) ((a, b, d), h) =
    ground (arith, has_brace-plain p h, ==_iff c b'{', ==_iff c b'}')

find_unescaped-none : (p : Text) → IsPlain p → (e : Bool) → find_unescaped b'{' e p ≡ none
unfolding find_unescaped
find_unescaped-none [] h e = refl
find_unescaped-none (c ∷ p) ((a, b, d), h) e =
    let f : (c == b'{') ≡ false = ground (arith, ==_iff c b'{') in
    rw f (ap suc? (find_unescaped-none p h (c == b'\\')))

pub next_placeholder-none : (p : Text) → IsPlain p → next_placeholder p ≡ none
unfolding next_placeholder
next_placeholder-none p h =
    ap
      (λ i. elim i [
        | none ↦ none
        | some start ↦ cut p start (find_unescaped b'}' false (drop start p))
      ])
      (find_unescaped-none p h false)

find_unescaped-placed :
    (k s : Text) → IsPlain k → find_unescaped b'}' false (placed k ++ s) ≡ some (suc (length k))
unfolding find_unescaped
find_unescaped-placed k s h = ap suc? (
    ap (λ q. find_unescaped b'}' false q) (append_assoc k (b'}' ∷ []) s)
    ∙ find_unescaped-plain b'}' k s (without_closing k h))

pub length-placed : (k : Text) → length (placed k) ≡ length k + 2
length-placed k = omega (arith, length-append k (b'}' ∷ []))

slice-placed :
    (l k s : Text)
    → slice (l ++ (placed k ++ s)) (length l) (length l + suc (length k) + 1) ≡ placed k
slice-placed l k s =
    let e : length l + suc (length k) + 1 - length l ≡ length (placed k) =
      omega (arith, length-placed k) in
    ap (λ n. take n (drop (length l) (l ++ (placed k ++ s)))) e
    ∙ ap (λ q. take (length (placed k)) q) (drop-length_append l (placed k ++ s))
    ∙ take-length_append (placed k) s

drop-placed : (l k s : Text) → drop (length l + suc (length k) + 1) (l ++ (placed k ++ s)) ≡ s
drop-placed l k s =
    let e : length l + suc (length k) + 1 ≡ length (l ++ placed k) =
      omega (arith, length-placed k, length-append l (placed k)) in
    ap (λ n. drop n (l ++ (placed k ++ s))) e
    ∙ ap (λ q. drop (length (l ++ placed k)) q) (sym (append_assoc l (placed k) s))
    ∙ drop-length_append (l ++ placed k) s

pub next_placeholder-placed :
    (l k s : Text)
    → IsPlain l
    → IsPlain k
    → next_placeholder (l ++ (placed k ++ s)) ≡ some (l, placed k, s)
unfolding next_placeholder
next_placeholder-placed l k s hl hk =
    let t : Text = l ++ (placed k ++ s) in
    ap
      (λ i. elim i [
        | none ↦ none
        | some start ↦ cut t start (find_unescaped b'}' false (drop start t))
      ])
      (find_unescaped-plain b'{' l ((k ++ (b'}' ∷ [])) ++ s) (without_opening l hl))
    ∙ ap (λ q. cut t (length l) (find_unescaped b'}' false q))
        (drop-length_append l (placed k ++ s))
    ∙ ap (λ n. cut t (length l) n) (find_unescaped-placed k s hk)
    ∙ ap
        (λ q. some (
          q,
          slice t (length l) (length l + suc (length k) + 1),
          drop (length l + suc (length k) + 1) t,
        ))
        (take-length_append l (placed k ++ s))
    ∙ ap (λ q. some (l, q, drop (length l + suc (length k) + 1) t)) (slice-placed l k s)
    ∙ ap (λ q. some (l, placed k, q)) (drop-placed l k s)
