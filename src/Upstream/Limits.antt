-- ===== src/Upstream/Limits.antt =====
-- When a host counts as down by the `max_fails` of caddyhttp/proxy/upstream.go.
use iotacaddy.Prelude.{
  ℕ, zero, suc, ◌%◌, ◌^◌, ◌<◌, Bool, true, false, not, ◌||◌, Option, none, some, ◌≡◌, refl, sym, ap,
  ◌∙◌, subst, ltb, leb, if◌then◌else◌, arith, Text, codes, text_eq, Bool-cases, inl, inr,
}
use iotacaddy.Dispenser.Defs.{Dispenser, next_arg, val}
use iotacaddy.Iota.Int.{ℤ, pos, negsuc, less, atoi}
use iotacaddy.Policy.Defs.{Host, is_down}
use iotacaddy.Upstream.Defs.{
  Library, StaticUpstream, Outcome, done, fault, to_int32, if_arg, on_number, max_fails_at,
  max_fails_property, property,
}
use iotacaddy.Upstream.Setup.{new_host, host_name, fresh_host}

some-injective : {a b : Host} → some a ≡ some b → a ≡ b
some-injective h = cc

new_host-fresh_host :
    (o : Library) (u : StaticUpstream) (t : Text) (h : Host)
    → new_host o u t ≡ some h
    → fresh_host u (host_name t) ≡ h
unfolding new_host
new_host-fresh_host o u t h k = elim (Bool-cases (o.parses_url (host_name t))) [
  | inl e ↦
      some-injective (ap (λ b. if b then some (fresh_host u (host_name t)) else none) (sym e) ∙ k)
  | inr e ↦ absurd (ground arith)
]

is_down-fresh :
    (u : StaticUpstream) (name : Text) (f : ℕ)
    → is_down (record (fresh_host u name) { fails = f }) ≡ not (less (pos f) u.max_fails)
unfolding is_down
is_down-fresh u name f = refl

less-to_int32 :
    (n f : ℕ) → not (less (pos f) (to_int32 n)) ≡ (leb (2 ^ 31) (n % 2 ^ 32) || leb (n % 2 ^ 32) f)
unfolding less
less-to_int32 n f = elim (Bool-cases (ltb (n % 2 ^ 32) (2 ^ 31))) [
  | inl l ↦ rw l (ground arith)
  | inr l ↦ rw l (ground arith)
]

-- What `max_fails` makes of its argument.
abbrev Limits : StaticUpstream → Text → Outcome → Type 0
Limits u v (fault e) = Unit
Limits u v (done u' d) =
    (n : ℕ) × (atoi v ≡ some (pos n)) × (0 < n) × (u' ≡ record u { max_fails = to_int32 n })

limit-Limits :
    (u : StaticUpstream) (d : Dispenser) (v : Text) (n : Option ℤ)
    → atoi v ≡ n
    → Limits u v (on_number v (λ k. max_fails_at d u k) n)
limit-Limits u d v none e = tt
limit-Limits u d v (some (negsuc n)) e = tt
limit-Limits u d v (some (pos zero)) e = tt
limit-Limits u d v (some (pos (suc n))) e = (suc n, e, omega arith, refl)

max_fails-Limits :
    (u : StaticUpstream) (r : Dispenser × Bool)
    → Limits u (val r.0) (if_arg r (λ d v. on_number v (λ k. max_fails_at d u k) (atoi v)))
max_fails-Limits u (d, false) = tt
max_fails-Limits u (d, true) = limit-Limits u d (val d) (atoi (val d)) refl

property-max_fails :
    (o : Library) (has_srv : Bool) (d : Dispenser) (u : StaticUpstream)
    → property o has_srv (codes "max_fails") d u ≡ max_fails_property d u
unfolding property text_eq
property-max_fails o has_srv d u = refl

-- If a block of `proxy` accepts `max_fails`, then its argument is a positive number, and a host that
-- is made then and has failed `f` times counts as down if the lowest 32 bits of the number are at
-- most `f`, or stand for a negative number, and only then.
pub is_down-max_fails :
    (o : Library) (has_srv : Bool) (d d' : Dispenser) (u u' : StaticUpstream) (t : Text) (h : Host)
    (f : ℕ)
    → property o has_srv (codes "max_fails") d u ≡ done u' d'
    → new_host o u' t ≡ some h
    → (n : ℕ) × (atoi (val (next_arg d).0) ≡ some (pos n))
      × (0 < n)
      × (is_down (record h { fails = f }) ≡ (leb (2 ^ 31) (n % 2 ^ 32) || leb (n % 2 ^ 32) f))
is_down-max_fails o has_srv d d' u u' t h f e k = down (max_fails-Limits u (next_arg d))
  where
    down :
        Limits u (val (next_arg d).0) (max_fails_property d u)
        → (n : ℕ) × (atoi (val (next_arg d).0) ≡ some (pos n))
          × (0 < n)
          × (is_down (record h { fails = f }) ≡ (leb (2 ^ 31) (n % 2 ^ 32) || leb (n % 2 ^ 32) f))
    down l =
        let (n, a, z, q) =
          subst (λ r. Limits u (val (next_arg d).0) r) (sym (property-max_fails o has_srv d u) ∙ e)
            l in
        (
          n,
          a,
          z,
          ap (λ g. is_down (record g { fails = f })) (sym (new_host-fresh_host o u' t h k))
              ∙ is_down-fresh u' (host_name t) f
              ∙ ap (λ v. not (less (pos f) v.max_fails)) q
              ∙ less-to_int32 n f,
        )
