-- ===== src/Policy/Robin.antt =====
-- `RoundRobin` of caddyhttp/proxy/policy.go.
use native.Mathlib.Nat.{mod-lt, mod-eq_of_lt}
use iotacaddy.Prelude.{
  ℕ, zero, suc, ◌+◌, ◌-◌, ◌%◌, ◌<◌, false, Option, none, some, [], ◌∷◌, ◌≡◌, refl, sym, subst, inl,
  inr, Bool-cases, if◌then◌else◌, arith, leb, length, get_elem?, get_elem?-lt,
}
use iotacaddy.Policy.Defs.{
  Host, available, Pool, Choice, chosen, nobody, crash, robin_pick, robin_from, select_round_robin,
  u32_mod, some_available,
}
use iotacaddy.Policy.Sampling.{In, IsCandidate}

-- Every residue is met in `n` consecutive numbers.
residue_met : (n r j : ℕ) → j < n → (k : ℕ) × (k < n) × ((r + k) % n ≡ j)
residue_met n r j h = elim (Bool-cases (leb (r % n) j)) [
  | inl e ↦ (j - r % n, grind (arith, mod-lt), grind arith)
  | inr e ↦ (j + n - r % n, grind (arith, mod-lt), grind arith)
]

pub get_elem?-In : (pool : Pool) (i : ℕ) (h : Host) → get_elem? pool i ≡ some h → In h pool
get_elem?-In [] i h e = absurd (cc)
get_elem?-In (g ∷ gs) zero h e = inl (ground arith)
get_elem?-In (g ∷ gs) (suc i) h e = inr (get_elem?-In gs i h e)

-- The host at an index is down or full, if there is one.
abbrev pub Unavailable : Option Host → Type 0
Unavailable none = Unit
Unavailable (some h) = available h ≡ false

some_available_none :
    (pool : Pool)
    → ((j : ℕ) → j < length pool → Unavailable (get_elem? pool j))
    → some_available pool ≡ false
unfolding some_available
some_available_none [] h = refl
some_available_none (g ∷ gs) h =
    rw (h 0 (omega arith)) (some_available_none gs (λ j e. h (suc j) (omega arith)))

-- What the loop returns: a candidate, or none, and then no host that it looked at is available.
abbrev Probed : Pool → ℕ → ℕ → Choice → Type 0
Probed pool n robin (chosen h) = IsCandidate pool h
Probed pool n robin nobody =
    (k : ℕ) → k < n → Unavailable (get_elem? pool ((robin + 1 + k) % length pool))
Probed pool n robin crash = ⊥

Probed-nobody :
    (pool : Pool) (n robin : ℕ)
    → Unavailable (get_elem? pool ((robin + 1) % length pool))
    → Probed pool n (robin + 1) nobody
    → Probed pool (suc n) robin nobody
Probed-nobody pool n robin u p zero e = let z : robin + 1 + 0 ≡ robin + 1 = omega arith in rw z u
Probed-nobody pool n robin u p (suc k) e =
    let z : robin + 1 + suc k ≡ robin + 1 + 1 + k = omega arith in rw z (p k (omega arith))

Probed-next :
    (pool : Pool) (n robin : ℕ) (r : Choice)
    → Unavailable (get_elem? pool ((robin + 1) % length pool))
    → Probed pool n (robin + 1) r
    → Probed pool (suc n) robin r
Probed-next pool n robin (chosen h) u p = p
Probed-next pool n robin nobody u p = Probed-nobody pool n robin u p
Probed-next pool n robin crash u p = p

Probed-pick :
    (pool : Pool) (n robin : ℕ) (rest : ℕ × Choice) (o : Option Host)
    → 0 < length pool
    → get_elem? pool ((robin + 1) % length pool) ≡ o
    → Probed pool n (robin + 1) rest.1
    → Probed pool (suc n) robin (robin_pick (robin + 1) rest o).1
Probed-pick pool n robin rest none l e p =
    let (h, e') = get_elem?-lt pool ((robin + 1) % length pool) (mod-lt _ l) in absurd (cc)
Probed-pick pool n robin rest (some g) l e p = elim (Bool-cases (available g)) [
  | inl a ↦
      subst (λ b. Probed pool (suc n) robin (if b then (robin + 1, chosen g) else rest).1) (sym a)
        (get_elem?-In pool ((robin + 1) % length pool) g e, a)
  | inr a ↦
      subst (λ b. Probed pool (suc n) robin (if b then (robin + 1, chosen g) else rest).1) (sym a)
        (Probed-next pool n robin rest.1 (rw e a) p)
]

robin_from-Probed :
    (n : ℕ) (pool : Pool) (robin : ℕ)
    → 0 < length pool
    → robin + n < u32_mod
    → Probed pool n robin (robin_from n (length pool) pool robin).1
unfolding robin_from
robin_from-Probed zero pool robin l h = λ k e. absurd (omega arith)
robin_from-Probed (suc n) pool robin l h =
    rw (mod-eq_of_lt {n = robin + 1} {m = u32_mod} (omega arith)) (
      Probed-pick pool n robin (robin_from n (length pool) pool (robin + 1)) _ l refl
        (robin_from-Probed n pool (robin + 1) l (omega arith)))

all-Probed :
    (pool : Pool) (robin : ℕ) → Probed pool (length pool) robin nobody → some_available pool ≡ false
all-Probed pool robin p =
    some_available_none pool
      λ j e. let (k, e', m) = residue_met (length pool) (robin + 1) j e in rw (← m) (p k e')

-- An available host of the pool, or nobody if there is none.
abbrev pub Picks : Pool → Choice → Type 0
Picks pool (chosen h) = IsCandidate pool h
Picks pool nobody = some_available pool ≡ false
Picks pool crash = ⊥

Probed-Picks :
    (pool : Pool) (robin : ℕ) (r : Choice) → Probed pool (length pool) robin r → Picks pool r
Probed-Picks pool robin (chosen h) p = p
Probed-Picks pool robin nobody p = all-Probed pool robin p
Probed-Picks pool robin crash p = p

-- As long as its 32-bit counter does not wrap around in the call, `RoundRobin` selects an
-- available host of the pool, and nobody only if there is none.
pub select_round_robin-Picks :
    (pool : Pool) (robin : ℕ)
    → 0 < length pool
    → robin + length pool < u32_mod
    → Picks pool (select_round_robin pool robin).1
unfolding select_round_robin
select_round_robin-Picks pool robin l h =
    rw (mod-eq_of_lt {n = length pool} {m = u32_mod} (omega arith))
      (Probed-Picks pool robin _ (robin_from-Probed (length pool) pool robin l h))

-- Where the counter wraps around, `RoundRobin` can pass over a host: in a pool of three, with the
-- counter two below 2 ^ 32, it looks at the first host twice and never at the last.
pub select_round_robin_wraps :
    (a b c : Host)
    → available a ≡ false
    → available b ≡ false
    → (select_round_robin (a ∷ b ∷ c ∷ []) 4294967294).1 ≡ nobody
unfolding select_round_robin
select_round_robin_wraps a b c p q = ground (arith, p, q)
