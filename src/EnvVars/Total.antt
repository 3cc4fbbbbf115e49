-- ===== src/EnvVars/Total.antt =====
-- The end of the loop of `replaceEnvReferences` in caddyfile/parse.go; its measure is the number
-- of open braces.
use iotacaddy.Prelude.{
  ℕ, zero, suc, ◌+◌, ◌-◌, ◌≤◌, ◌<◌, true, Option, none, some, [], ◌∷◌, ◌≡◌, refl, ◌==◌, inl, inr,
  Bool-cases, Option-cases, arith, Text, length, take, drop, count, count-append,
}
use iotacaddy.EnvVars.Defs.{
  has_prefix, suc?, index, replace_from, replace, slice, Getenv, reference_round,
  replace_env_references, unix_start, unix_end, replace_env_vars,
}

-- The number of open braces.
abbrev pub braces : Text → ℕ
braces = count b'{'

replace_from-le :
    (skip : ℕ) (s old new : Text) → braces new ≡ 0 → braces (replace_from skip s old new) ≤ braces s
unfolding replace_from
replace_from-le skip [] old new h = omega arith
replace_from-le (suc k) (c ∷ s) old new h = omega (arith, replace_from-le k s old new h)
replace_from-le zero (c ∷ s) old new h = elim (Bool-cases (has_prefix (c ∷ s) old)) [
  | inl e ↦
      rw (e, replace_from)
        (omega (
          arith,
          count-append b'{' new (replace_from (length old - 1) s old new),
          replace_from-le (length old - 1) s old new h,
        ))
  | inr e ↦ rw (e, replace_from) (omega (arith, replace_from-le zero s old new h))
]

replace_here-lt :
    (c : ℕ) (s rest new : Text)
    → braces new ≡ 0
    → has_prefix (c ∷ s) (b'{' ∷ rest) ≡ true
    → braces (replace (c ∷ s) (b'{' ∷ rest) new) < braces (c ∷ s)
unfolding has_prefix replace_from
replace_here-lt c s rest new h here =
    let brace : (c == b'{') ≡ true = ground arith in
    let n = length (b'{' ∷ rest) - 1 in
    rw (here, replace_from, brace)
      (omega (
        arith,
        count-append b'{' new (replace_from n s (b'{' ∷ rest) new),
        replace_from-le n s (b'{' ∷ rest) new h,
      ))

-- Where a text that starts with an open brace occurs, its replacement by one without takes a brace
-- away.
replace-lt :
    (i : ℕ) (s rest new : Text)
    → braces new ≡ 0
    → has_prefix (drop i s) (b'{' ∷ rest) ≡ true
    → braces (replace s (b'{' ∷ rest) new) < braces s
unfolding has_prefix replace_from
replace-lt zero [] rest new h p = absurd (cc)
replace-lt (suc i) [] rest new h p = absurd (cc)
replace-lt zero (c ∷ s) rest new h p = replace_here-lt c s rest new h p
replace-lt (suc i) (c ∷ s) rest new h p = elim (Bool-cases (has_prefix (c ∷ s) (b'{' ∷ rest))) [
  | inl e ↦ replace_here-lt c s rest new h e
  | inr e ↦ rw (e, replace_from) (omega (arith, replace-lt i s rest new h p))
]

suc?-some : (o : Option ℕ) (i : ℕ) → suc? o ≡ some i → (k : ℕ) × (o ≡ some k) × (i ≡ suc k)
suc?-some none i h = absurd (cc)
suc?-some (some k) i h = (k, refl, ground arith)

index-has_prefix : (s pat : Text) (i : ℕ) → index s pat ≡ some i → has_prefix (drop i s) pat ≡ true
unfolding index
index-has_prefix [] pat i h = absurd (cc)
index-has_prefix (c ∷ s) pat i h = elim (Bool-cases (has_prefix (c ∷ s) pat)) [
  | inl e ↦ let z : i ≡ 0 = ground arith in rw z e
  | inr e ↦
      let (k, e', z) = suc?-some (index s pat) i (rw e at h) in rw z (index-has_prefix s pat k e')
]

has_prefix-take : (n : ℕ) (s : Text) → has_prefix s (take n s) ≡ true
unfolding has_prefix
has_prefix-take zero s = unfold has_prefix in nothing s
  where
    nothing : (s : Text) → has_prefix s [] ≡ true
    nothing [] = refl
    nothing (c ∷ s) = refl
has_prefix-take (suc n) [] = refl
has_prefix-take (suc n) (c ∷ s) = ground (arith, has_prefix-take n s)

-- A text with a prefix that starts with an open brace starts with one.
has_prefix-head :
    (n : ℕ) (s rest : Text)
    → has_prefix s (b'{' ∷ rest) ≡ true
    → (cs : Text) × (take (suc n) s ≡ b'{' ∷ cs)
unfolding has_prefix
has_prefix-head n [] rest h = absurd (cc)
has_prefix-head n (c ∷ s) rest h = (take n s, ground arith)

-- No variable holds an open brace.
abbrev pub IsPlain : Getenv → Type 0
IsPlain getenv = (name : Text) → braces (getenv name) ≡ 0

module _ (getenv : Getenv) (plain : IsPlain getenv) (st : Text) (e : ℕ) (es : Text) where
  abbrev start : Text
  start = b'{' ∷ st

  abbrev end : Text
  end = e ∷ es

  -- What a round puts in, at an occurrence of the start.
  spliced-lt :
      (s name : Text) (i j : ℕ)
      → index s start ≡ some i
      → braces (replace s (slice s i (i + j + length end)) (getenv name)) < braces s
  spliced-lt s name i j h =
      let p = index-has_prefix s start i h in
      let n : i + j + length end - i ≡ suc (j + length es) = omega arith in
      let (cs, z) = has_prefix-head (j + length es) (drop i s) st p in
      rw (n, z)
        (replace-lt i s cs (getenv name) (plain name)
          (rw z at (has_prefix-take (suc (j + length es)) (drop i s))))

  round-lt : (s s' : Text) → reference_round getenv start end s ≡ some s' → braces s' < braces s
  unfolding reference_round
  round-lt s s' h = elim (Option-cases (index s start)) [
    | inl n ↦ absurd (ground arith)
    | inr (i, f) ↦ elim (Option-cases (index (drop i s) end)) [
      | inl n ↦ absurd (ground arith)
      | inr (j, g) ↦
          let z = spliced-lt s (slice s (i + length start) (i + j)) i j f in ground (arith, z)
    ]
  ]

  references-end :
      (f : ℕ) (s : Text)
      → braces s < f
      → (s' : Text) × (replace_env_references f getenv start end s ≡ some s')
        × (reference_round getenv start end s' ≡ none)
        × (braces s' ≤ braces s)
  unfolding replace_env_references
  references-end zero s h = absurd (omega arith)
  references-end (suc f) s h = elim (Option-cases (reference_round getenv start end s)) [
    | inl n ↦ (s, rw (n, replace_env_references) refl, n, omega arith)
    | inr (t, n) ↦
        let (s', r, o, l) = references-end f t (omega (arith, round-lt s t n)) in
        (s', rw (n, replace_env_references) r, o, omega (arith, round-lt s t n))
  ]

-- Where no variable holds an open brace, `replaceEnvVars` ends, after no more rounds than the text
-- has braces, and in the text that it returns the loop finds no reference `{$…}` any more.
pub replace_env_vars-end :
    (f : ℕ) (getenv : Getenv) (s : Text)
    → IsPlain getenv
    → braces s < f
    → (s' : Text) × (replace_env_vars f getenv s ≡ some s')
      × (reference_round getenv unix_start unix_end s' ≡ none)
      × (braces s' ≤ braces s)
unfolding replace_env_vars
replace_env_vars-end f getenv s plain h =
    let (t, r, o, l) = references-end getenv plain (b'%' ∷ []) b'%' (b'}' ∷ []) f s h in
    let (s', r', o', l') = references-end getenv plain (b'$' ∷ []) b'}' [] f t (omega arith) in
    (s', rw (r, replace_env_vars) r', o', omega arith)

abbrev pub own_reference : Text
own_reference = b'{' ∷ b'$' ∷ b'P' ∷ b'}' ∷ []

references_loop :
    (f : ℕ) (getenv : Getenv)
    → getenv (b'P' ∷ []) ≡ own_reference
    → replace_env_references f getenv unix_start unix_end own_reference ≡ none
unfolding replace_env_references reference_round index has_prefix replace_from
references_loop zero getenv h = refl
references_loop (suc f) getenv h = rw h (references_loop f getenv h)

-- Where the variable `P` holds the text `{$P}`, `replaceEnvVars` of that text does not end,
-- however many rounds it is given.
pub replace_env_vars_loops :
    (f : ℕ) (getenv : Getenv)
    → getenv (b'P' ∷ []) ≡ own_reference
    → replace_env_vars f getenv own_reference ≡ none
unfolding replace_env_vars replace_env_references reference_round index has_prefix
replace_env_vars_loops zero getenv h = refl
replace_env_vars_loops (suc f) getenv h = references_loop (suc f) getenv h
