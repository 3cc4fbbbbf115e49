-- ===== src/Policy/Hashing.antt =====
-- `hostByHashing` of caddyhttp/proxy/policy.go, and `staticUpstream.Select` of
-- caddyhttp/proxy/upstream.go.
use native.Mathlib.Nat.{mod-lt, mod-eq_of_lt}
use iotacaddy.Prelude.{
  ℕ, zero, suc, ◌+◌, ◌%◌, ◌≤◌, ◌<◌, Bool, Option, none, some, [], ◌∷◌, ◌≡◌, refl, sym, subst, inl,
  inr, Bool-cases, if◌then◌else◌, ◌==◌, false, arith, length, get_elem?, get_elem?-lt, Text, All,
}
use iotacaddy.Policy.Defs.{
  Host, available, Pool, pool_len, Draws, Choice, chosen, nobody, crash, choice, hash_pick,
  hash_from, host_by_hashing, hash, u32_mod, some_available, Policy, random, least_conn,
  round_robin, ip_hash, first, uri_hash, header, Counters, Request, select, upstream_select,
  select_round_robin, robin_from, robin_pick, max_int64, or_random,
}
use iotacaddy.Policy.Sampling.{
  IsCandidate, Selects, select_random-Selects, select_least_conn-Selects, select_first-Selects,
  IsLeast,
}
use iotacaddy.Lexer.Defs.{is_nil}
use iotacaddy.Policy.Robin.{get_elem?-In, Unavailable}

-- What hashing may choose.
abbrev pub Chooses : (Host → Type 0) → Choice → Type 0
Chooses Q (chosen h) = Q h
Chooses Q nobody = Unit
Chooses Q crash = ⊥

Chooses-pick :
    (pool : Pool) (rest : Choice) (i : ℕ) (o : Option Host)
    → i < length pool
    → get_elem? pool i ≡ o
    → Chooses (IsCandidate pool) rest
    → Chooses (IsCandidate pool) (hash_pick rest o)
Chooses-pick pool rest i none lt e c = let (h, e') = get_elem?-lt pool i lt in absurd (cc)
Chooses-pick pool rest i (some g) lt e c = elim (Bool-cases (available g)) [
  | inl a ↦
      subst (λ b. Chooses (IsCandidate pool) (if b then chosen g else rest)) (sym a)
        (get_elem?-In pool i g e, a)
  | inr a ↦ subst (λ b. Chooses (IsCandidate pool) (if b then chosen g else rest)) (sym a) c
]

hash_from-Chooses :
    (n i index : ℕ) (pool : Pool)
    → 0 < length pool
    → Chooses (IsCandidate pool) (hash_from n (length pool) i index pool)
unfolding hash_from
hash_from-Chooses zero i index pool h = tt
hash_from-Chooses (suc n) i index pool h =
    Chooses-pick pool _ ((index + i) % u32_mod % length pool) _ (mod-lt _ h) refl
      (hash_from-Chooses n (suc i) ((index + i) % u32_mod) pool h)

small : (pool : Pool) → length pool < u32_mod → pool_len pool ≡ length pool
small pool h = mod-eq_of_lt h

-- `hostByHashing` on a pool with hosts, but fewer than 2 ^ 32, does not panic, and what it returns
-- is an available host of the pool.
pub host_by_hashing-Chooses :
    (pool : Pool) (s : Text)
    → 0 < length pool
    → length pool < u32_mod
    → Chooses (IsCandidate pool) (host_by_hashing pool s)
unfolding host_by_hashing
host_by_hashing-Chooses pool s h l =
    let e : (length pool == 0) ≡ false = ground arith in
    rw (small pool l, e) (hash_from-Chooses (length pool) 0 (hash s % length pool) pool h)

-- The indices that the loop probes in a pool of three: the second round adds 1 to the index, the
-- third adds 2 more, and so comes back to the first host.
third_probe : (r : ℕ) → r < 3 → (r + 1 + 2) % 3 ≡ r
third_probe r h = omega arith

-- In a pool of three, `hostByHashing` returns no host as soon as the hashed one and the one behind
-- it are unavailable, although the third may be available: its rounds come back to the first.
pub host_by_hashing_misses :
    (a b c : Host) (s : Text)
    → Unavailable (get_elem? (a ∷ b ∷ c ∷ []) (hash s % 3))
    → Unavailable (get_elem? (a ∷ b ∷ c ∷ []) ((hash s % 3 + 1) % 3))
    → host_by_hashing (a ∷ b ∷ c ∷ []) s ≡ nobody
unfolding host_by_hashing
host_by_hashing_misses a b c s p q = misses (hash s % 3) (mod-lt (hash s) (omega arith)) p q
  where
    misses :
        (r : ℕ)
        → r < 3
        → Unavailable (get_elem? (a ∷ b ∷ c ∷ []) r)
        → Unavailable (get_elem? (a ∷ b ∷ c ∷ []) ((r + 1) % 3))
        → hash_from 3 3 0 r (a ∷ b ∷ c ∷ []) ≡ nobody
    misses zero h p q = ground (arith, p, q)
    misses (suc zero) h p q = ground (arith, p, q)
    misses (suc (suc zero)) h p q = ground (arith, p, q)
    misses (suc (suc (suc r))) h p q = absurd (omega arith)

Chooses-choice :
    (Q : Host → Type 0) (any : Bool) (r : Option Host) → Selects Q any r → Chooses Q (choice r)
Chooses-choice Q any none h = tt
Chooses-choice Q any (some g) h = h.0

Chooses-least :
    (pool : Pool) (any : Bool) (r : Option Host)
    → Selects (λ h. IsCandidate pool h × IsLeast h pool) any r
    → Chooses (IsCandidate pool) (choice r)
Chooses-least pool any none h = tt
Chooses-least pool any (some g) h = h.0.0

robin_from-Chooses :
    (n : ℕ) (pool : Pool) (robin : ℕ)
    → 0 < length pool
    → Chooses (IsCandidate pool) (robin_from n (length pool) pool robin).1
unfolding robin_from
robin_from-Chooses zero pool robin h = tt
robin_from-Chooses (suc n) pool robin h =
    picked (robin_from n (length pool) pool ((robin + 1) % u32_mod)) _ refl
      (robin_from-Chooses n pool ((robin + 1) % u32_mod) h)
  where
    picked :
        (rest : ℕ × Choice) (o : Option Host)
        → get_elem? pool ((robin + 1) % u32_mod % length pool) ≡ o
        → Chooses (IsCandidate pool) rest.1
        → Chooses (IsCandidate pool) (robin_pick ((robin + 1) % u32_mod) rest o).1
    picked rest none e c =
        let (g, e') = get_elem?-lt pool ((robin + 1) % u32_mod % length pool) (mod-lt _ h) in
        absurd (cc)
    picked rest (some g) e c = elim (Bool-cases (available g)) [
      | inl a ↦
          subst
            (λ b.
              Chooses (IsCandidate pool) (if b then ((robin + 1) % u32_mod, chosen g) else rest).1)
            (sym a) (get_elem?-In pool _ g e, a)
      | inr a ↦
          subst
            (λ b.
              Chooses (IsCandidate pool) (if b then ((robin + 1) % u32_mod, chosen g) else rest).1)
            (sym a) c
    ]

select_round_robin-Chooses :
    (pool : Pool) (robin : ℕ)
    → 0 < length pool
    → length pool < u32_mod
    → Chooses (IsCandidate pool) (select_round_robin pool robin).1
unfolding select_round_robin
select_round_robin-Chooses pool robin h l =
    rw (small pool l) (robin_from-Chooses (length pool) pool robin h)

-- Every policy, on a pool with hosts: it does not panic, and what it selects is an available host
-- of the pool.
select-Chooses :
    (p : Policy) (draws : Draws) (pool : Pool) (r : Request) (c : Counters)
    → 0 < length pool
    → length pool < u32_mod
    → All (λ h. h.conns ≤ max_int64) pool
    → Chooses (IsCandidate pool) (select p draws pool r c).1
unfolding select
select-Chooses random draws pool r c ne l b =
    Chooses-choice (IsCandidate pool) _ _ (select_random-Selects draws pool)
select-Chooses least_conn draws pool r c ne l b =
    Chooses-least pool _ _ (select_least_conn-Selects draws pool b)
select-Chooses round_robin draws pool r c ne l b = select_round_robin-Chooses pool c.own ne l
select-Chooses ip_hash draws pool r c ne l b = host_by_hashing-Chooses pool _ ne l
select-Chooses uri_hash draws pool r c ne l b = host_by_hashing-Chooses pool _ ne l
select-Chooses first draws pool r c ne l b =
    Chooses-choice (IsCandidate pool) _ _ (select_first-Selects pool)
select-Chooses (header name) draws pool r c ne l b = elim (Bool-cases (is_nil name)) [
  | inl e ↦ rw e tt
  | inr e ↦ elim (Bool-cases (is_nil (r.header name))) [
    | inl e' ↦ rw (e, e') (select_round_robin-Chooses pool c.shared ne l)
    | inr e' ↦ rw (e, e') (host_by_hashing-Chooses pool _ ne l)
  ]
]

-- The selection of an upstream, whatever the policy, from a pool of fewer than 2 ^ 32 hosts: it
-- does not panic, and it selects only an available host of the pool. Connections are 64-bit
-- integers, not below 0.
pub upstream_select-Chooses :
    (p : Option Policy) (draws : Draws) (pool : Pool) (r : Request) (c : Counters)
    → length pool < u32_mod
    → All (λ h. h.conns ≤ max_int64) pool
    → Chooses (IsCandidate pool) (upstream_select p draws pool r c).1
unfolding upstream_select
upstream_select-Chooses p draws [] r c l b = tt
upstream_select-Chooses p draws (h ∷ []) r c l b = elim (Bool-cases (available h)) [
  | inl a ↦
      subst (λ t. Chooses (IsCandidate (h ∷ [])) (if t then chosen h else nobody)) (sym a)
        (inl refl, a)
  | inr a ↦ subst (λ t. Chooses (IsCandidate (h ∷ [])) (if t then chosen h else nobody)) (sym a) tt
]
upstream_select-Chooses p draws (h ∷ g ∷ hs) r c l b =
    elim (Bool-cases (some_available (h ∷ g ∷ hs))) [
      | inl a ↦ rw a (select-Chooses (or_random p) draws (h ∷ g ∷ hs) r c (omega arith) l b)
      | inr a ↦ rw a tt
    ]
