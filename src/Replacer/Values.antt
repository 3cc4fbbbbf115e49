-- ===== src/Replacer/Values.antt =====
-- That `Replace` of caddyhttp/httpserver/replacer.go comes to an end and cuts no key out of its
-- bounds.
use iotacaddy.Prelude.{
  ℕ, zero, suc, ◌+◌, ◌≤◌, ◌<◌, Bool, true, false, Option, none, some, [], ◌∷◌, ◌++◌, ◌≡◌, ◌≢◌, refl,
  sym, ap, ◌∙◌, leb, ◌==◌, ==_iff, arith, Text, codes, length, get_elem?, Bool-cases, inl, inr,
}
use iotacaddy.EnvVars.Defs.{has_prefix}
use iotacaddy.Telemetry.Defs.{lookup}
use iotacaddy.Replacer.Request.{Outside, Replacer}
use iotacaddy.Replacer.Defs.{
  inner, found_or, label_value, request_values, response_values, tls_values, request_value, by_kind,
  get_substitution,
}
use iotacaddy.Replacer.Template.{
  unescape_braces, next_placeholder, has_brace, Replaced, replaced, after_value, after_cut,
  replace_placeholders, replace_all,
}
use iotacaddy.Replacer.Cuts.{
  last_rune, IsPlaced, unescape_braces-IsPlaced, IsCut, next_placeholder-IsCut,
}

-- There is a value.
abbrev pub Given : Option Text → Type 0
Given none = ⊥
Given (some v) = Unit

-- The values. A key of fewer than three runes has no kind.
found_or-Given :
    (b : Bool) (name : Option Text) (search : Text → Option Text) (rest : Option Text)
    → (b ≡ true → Given name)
    → Given rest
    → Given (found_or b name search rest)
found_or-Given false name search rest h g = g
found_or-Given true none search rest h g = h refl
found_or-Given true (some name) search rest h g = result (search name)
  where
    result : (v : Option Text) → Given (elim v [ none ↦ rest | some v ↦ some v ])
    result none = g
    result (some v) = tt

inner-Given : (key : Text) (from : ℕ) → from + 1 ≤ length key → Given (inner key from)
inner-Given key from h = let e : leb (from + 1) (length key) ≡ true = ground arith in rw e tt

longer : (s p : Text) → has_prefix s p ≡ true → last_rune s ≢ last_rune p → length p < length s
unfolding has_prefix
longer [] [] h n = absurd (n refl)
longer (c ∷ s) [] h n = omega arith
longer [] (q ∷ p) h n = absurd (cc)
longer (c ∷ []) (q ∷ []) h n = absurd (n (ap some (ground (arith, ==_iff c q))))
longer (c ∷ d ∷ s) (q ∷ []) h n = omega arith
longer (c ∷ []) (q ∷ r ∷ p) h n = absurd (ground arith)
longer (c ∷ d ∷ s) (q ∷ r ∷ p) h n =
    let l : length (r ∷ p) < length (d ∷ s) = longer (d ∷ s) (r ∷ p) (ground arith) n in omega arith

some-injective : {a b : ℕ} → some a ≡ some b → a ≡ b
some-injective h = cc

label_value-Given : (r : Replacer) (key : Text) → IsPlaced key → Given (label_value r key)
label_value-Given r key p = elim (Bool-cases (has_prefix key (codes "{label"))) [
  | inr e ↦ rw e tt
  | inl e ↦
      let l : 6 < length key =
        longer key (codes "{label") e
          (λ q. absurd (omega (arith, some-injective (sym p.closing ∙ q)))) in
      let k : leb 7 (length key) ≡ true = ground arith in rw (e, k) tt
]

request_value-Given :
    (o : Outside) (r : Replacer) (key : Text) → IsPlaced key → Given (request_value o r key)
request_value-Given o r key p =
    result (lookup key (request_values o r ++ (response_values o r ++ tls_values r)))
  where
    result : (v : Option Text) → Given (elim v [ some v ↦ some v | none ↦ label_value r key ])
    result none = label_value-Given r key p
    result (some v) = tt

three_runes :
    (key : Text) (c k : ℕ)
    → IsPlaced key
    → get_elem? key 1 ≡ some c
    → (c == k) ≡ true
    → k ≢ b'}'
    → 2 + 1 ≤ length key
three_runes [] c k p h e n = absurd (cc)
three_runes (a ∷ []) c k p h e n = absurd (cc)
three_runes (a ∷ b ∷ []) c k p h e n = let l = p.closing in absurd (n (ground (arith, ==_iff c k)))
three_runes (a ∷ b ∷ d ∷ s) c k p h e n = omega arith

by_kind-Given :
    (o : Outside) (r : Replacer) (key : Text) (c : ℕ)
    → IsPlaced key
    → get_elem? key 1 ≡ some c
    → Given (by_kind o r key c)
by_kind-Given o r key c p h = found_or-Given (c == b'>') _ _ _ (named b'>' (omega arith)) (
    found_or-Given (c == b'<') _ _ _ (named b'<' (omega arith)) (
      found_or-Given (c == b'~') _ _ _ (named b'~' (omega arith)) (
        found_or-Given (c == b'?') _ _ _ (named b'?' (omega arith))
          (request_value-Given o r key p))))
  where
    named : (k : ℕ) → k ≢ b'}' → (c == k) ≡ true → Given (inner key 2)
    named k n e = inner-Given key 2 (three_runes key c k p h e n)

pub get_substitution-Given :
    (o : Outside) (r : Replacer) (key : Text) → IsPlaced key → Given (get_substitution o r key)
unfolding get_substitution
get_substitution-Given o r key p = custom (lookup key r.custom)
  where
    second : (s : Text) → IsPlaced s → (c : ℕ) × (get_elem? s 1 ≡ some c)
    second [] q = absurd (let a = q.opening in cc)
    second (a ∷ []) q = absurd (omega (arith, some-injective (sym q.opening ∙ q.closing)))
    second (a ∷ b ∷ s) q = (b, refl)

    kind : Given (elim (get_elem? key 1) [ none ↦ none | some c ↦ by_kind o r key c ])
    kind = let (c, e) = second key p in rw e (by_kind-Given o r key c p e)

    custom :
        (v : Option Text)
        → Given (elim v [
          | some v ↦ some v
          | none ↦ elim (get_elem? key 1) [ none ↦ none | some c ↦ by_kind o r key c ]
        ])
    custom (some v) = tt
    custom none = kind

-- The loop.
abbrev Returns : Replaced → Type 0
Returns x = (t : Text) × (x ≡ replaced t)

module _ (value : Text → Option Text)
    (given : (key : Text) → IsPlaced key → Given (value key)) where
  after_value-Returns :
      (more : Text → Replaced) (result before : Text) (v : Option Text)
      → Given v
      → ((t : Text) → Returns (more t))
      → Returns (after_value more result before v)
  after_value-Returns more result before none g h = absurd g
  after_value-Returns more result before (some v) g h = h _

  after_cut-Returns :
      (loop : Text → Text → Replaced) (s result : Text) (c : Option (Text × Text × Text))
      → IsCut s c
      → ((rest t : Text) → length rest < length s → Returns (loop rest t))
      → Returns (after_cut value loop s result c)
  after_cut-Returns loop s result none i h = (_, refl)
  after_cut-Returns loop s result (some (before, placeholder, rest)) (p, l) h =
      after_value-Returns (loop rest) result before (value (unescape_braces placeholder))
        (given (unescape_braces placeholder) (unescape_braces-IsPlaced placeholder p))
        λ t. h rest t l

  replace_placeholders-Returns :
      (f : ℕ) (s result : Text) → length s < f → Returns (replace_placeholders f value s result)
  unfolding replace_placeholders
  replace_placeholders-Returns zero s result l = absurd (omega arith)
  replace_placeholders-Returns (suc f) s result l =
      after_cut-Returns (λ rest t. replace_placeholders f value rest t) s result
        (next_placeholder s) (next_placeholder-IsCut s)
        λ rest t k. replace_placeholders-Returns f rest t (omega arith)

-- `Replace` comes to an end with a text, whatever braces and backslashes the text holds: no round
-- goes on for ever, and no placeholder is cut out of its bounds.
pub replace_all-Returns :
    (o : Outside) (r : Replacer) (s : Text) → (t : Text) × (replace_all o r s ≡ replaced t)
unfolding replace_all
replace_all-Returns o r s = elim (Bool-cases (has_brace s)) [
  | inr e ↦ rw e (s, refl)
  | inl e ↦ rw e (
      replace_placeholders-Returns (get_substitution o r) (get_substitution-Given o r)
        (suc (length s)) s [] (omega arith))
]
