-- ===== src/Upstream/Probes.antt =====
-- What the health checks of caddyhttp/proxy/upstream.go make of a host.
use iotacaddy.Prelude.{
  ℕ, zero, suc, ◌≤◌, ◌<◌, Bool, true, false, Option, none, some, List, [], ◌∷◌, ◌≡◌, ◌↔◌, refl, ap,
  ◌==◌, arith, Text, length, get_elem?, Bool-cases, inl, inr,
}
use iotacaddy.Lexer.Defs.{is_nil}
use iotacaddy.Conditions.Defs.{contains}
use iotacaddy.Policy.Defs.{Host}
use iotacaddy.Upstream.Defs.{HealthCheck}
use iotacaddy.Upstream.Health.{
  Probe, no_request, no_response, response, Network, Resolved, resolved, unresolved, resolve_host,
  is_unhealthy, probe, unhealthy_count, checked, check_host,
}

-- A response with a status from 200 to 399, whose body holds what is asked for, if something is.
pub data IsGood (content : Text) : Probe → Type 0 where
  plain :
      (status : ℕ) (body : Option Text)
      → 200 ≤ status
      → status < 400
      → is_nil content ≡ true
      → IsGood content (response status body)
  holding :
      (status : ℕ) (body : Text)
      → 200 ≤ status
      → status < 400
      → contains body content ≡ true
      → IsGood content (response status (some body))

-- Some of the addresses that a host resolves to answers well.
pub data Answers (w : Network) (c : HealthCheck) : Resolved → Type 0 where
  answers :
      (xs : List Text) (is_srv : Bool) (i : ℕ) (a : Text)
      → get_elem? xs i ≡ some a
      → IsGood c.content_string (probe w c is_srv a)
      → Answers w c (resolved xs is_srv)

good_of : (content : Text) (p : Probe) → is_unhealthy content p ≡ false → IsGood content p
unfolding is_unhealthy
good_of content no_request h = absurd (cc)
good_of content no_response h = absurd (cc)
good_of content (response status none) h =
    plain status none (ground arith) (ground arith) (ground arith)
good_of content (response status (some body)) h = elim (Bool-cases (is_nil content)) [
  | inl e ↦ plain status (some body) (ground arith) (ground arith) e
  | inr e ↦ holding status body (ground arith) (ground arith) (ground arith)
]

of_good : (content : Text) (p : Probe) → IsGood content p → is_unhealthy content p ≡ false
unfolding is_unhealthy
of_good content p (plain status body a b e) = ground arith
of_good content p (holding status body a b e) = ground arith

module _ (w : Network) (c : HealthCheck) (is_srv : Bool) where
  count-le : (xs : List Text) → unhealthy_count w c is_srv xs ≤ length xs
  unfolding unhealthy_count
  count-le [] = omega arith
  count-le (a ∷ xs) = ground (arith, count-le xs)

  abbrev HasGood : List Text → Type 0
  HasGood xs =
      (i : ℕ) × (a : Text) × (get_elem? xs i ≡ some a)
      × IsGood c.content_string (probe w c is_srv a)

  HasGood-cons : (a : Text) (xs : List Text) → HasGood xs → HasGood (a ∷ xs)
  HasGood-cons a xs (i, b, e, g) = (suc i, b, e, g)

  HasGood-count :
      (xs : List Text) → (unhealthy_count w c is_srv xs == length xs) ≡ false → HasGood xs
  unfolding unhealthy_count
  HasGood-count [] h = absurd (cc)
  HasGood-count (a ∷ xs) h =
      elim (Bool-cases (is_unhealthy c.content_string (probe w c is_srv a))) [
        | inl e ↦
            let h' : (unhealthy_count w c is_srv xs == length xs) ≡ false = ground arith in
            HasGood-cons a xs (HasGood-count xs h')
        | inr e ↦ (0, a, refl, good_of c.content_string (probe w c is_srv a) e)
      ]

  count-HasGood :
      (xs : List Text) (i : ℕ) (a : Text)
      → get_elem? xs i ≡ some a
      → IsGood c.content_string (probe w c is_srv a)
      → (unhealthy_count w c is_srv xs == length xs) ≡ false
  unfolding unhealthy_count
  count-HasGood [] i a e g = absurd (cc)
  count-HasGood (b ∷ xs) zero a e g =
      ground (arith, of_good c.content_string (probe w c is_srv a) g, count-le xs)
  count-HasGood (b ∷ xs) (suc i) a e g = ground (arith, count-HasGood xs i a e g, count-le xs)

checked-Answers :
    (w : Network) (c : HealthCheck) (h : Host) (r : Resolved)
    → ((checked w c h r).unhealthy ≡ 0) ↔ Answers w c r
checked-Answers w c h unresolved = (λ e. absurd (omega arith), λ a. elim a [ ])
checked-Answers w c h (resolved xs is_srv) =
    elim (Bool-cases (unhealthy_count w c is_srv xs == length xs)) [
      | inl e ↦ rw e (λ z. absurd (omega arith), λ a. absurd (against e a))
      | inr e ↦ rw e (
        λ z. let (i, a, g, k) = HasGood-count w c is_srv xs e in answers xs is_srv i a g k,
        λ a. refl,
      )
    ]
  where
    against :
        (unhealthy_count w c is_srv xs == length xs) ≡ true → Answers w c (resolved xs is_srv) → ⊥
    against e (answers xs is_srv i a g k) = let e' = count-HasGood w c is_srv xs i a g k in cc

-- After a check a host counts as healthy if and only if it resolves, and some address that it
-- resolves to gives a response with a status from 200 to 399 whose body holds the content asked
-- for, if one is asked for; its name and its counts are left alone.
pub check_host-Answers :
    (w : Network) (c : HealthCheck) (h : Host)
    → (((check_host w c h).unhealthy ≡ 0) ↔ Answers w c (resolve_host w h.name))
      × ((check_host w c h).name ≡ h.name)
      × ((check_host w c h).conns ≡ h.conns)
      × ((check_host w c h).fails ≡ h.fails)
unfolding check_host
check_host-Answers w c h =
    let r = resolve_host w h.name in
    (
      checked-Answers w c h r,
      ap (λ x. x.name) (same r),
      ap (λ x. x.conns) (same r),
      ap (λ x. x.fails) (same r),
    )
  where
    same : (r : Resolved) → record (checked w c h r) { unhealthy = h.unhealthy } ≡ h
    same unresolved = refl
    same (resolved xs is_srv) = ground arith
