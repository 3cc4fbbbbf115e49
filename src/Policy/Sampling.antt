-- ===== src/Policy/Sampling.antt =====
-- `Random`, `LeastConn` and `First` of caddyhttp/proxy/policy.go, whatever the draws.
use iotacaddy.Prelude.{
  ℕ, suc, ◌≤◌, Bool, true, false, ◌&&◌, ◌||◌, Option, none, some, [], ◌∷◌, ◌≡◌, refl, sym, subst,
  ◌⊎◌, inl, inr, Bool-cases, arith, All, ltb, ◌==◌, ◌%◌,
}
use iotacaddy.Policy.Defs.{
  Host, available, Pool, Draws, random_from, select_random, max_int64, Least, lower_least,
  draw_least, least_from, select_least_conn, select_first, some_available,
}

abbrev pub In : Host → Pool → Type 0
In h [] = ⊥
In h (g ∷ gs) = (g ≡ h) ⊎ In h gs

-- What a policy owes: a host that is wanted, if there is `any`, and none if there is not.
abbrev pub Selects : (Host → Type 0) → Bool → Option Host → Type 0
Selects Q any none = any ≡ false
Selects Q any (some h) = Q h × (any ≡ true)

-- A host of the pool that is available.
abbrev pub IsCandidate : Pool → Host → Type 0
IsCandidate pool h = In h pool × (available h ≡ true)

-- Every available host of the list satisfies `Q`.
abbrev Offers : (Host → Type 0) → Pool → Type 0
Offers Q [] = Unit
Offers Q (h ∷ hs) = (available h ≡ true → Q h) × Offers Q hs

Offers-map :
    (P Q : Host → Type 0) (hs : Pool) → ((h : Host) → P h → Q h) → Offers P hs → Offers Q hs
Offers-map P Q [] f o = tt
Offers-map P Q (h ∷ hs) f (p, o) = (λ a. f h (p a), Offers-map P Q hs f o)

Offers-IsCandidate : (pool : Pool) → Offers (IsCandidate pool) pool
Offers-IsCandidate [] = tt
Offers-IsCandidate (h ∷ hs) = (
  λ a. (inl refl, a),
  Offers-map (IsCandidate hs) (IsCandidate (h ∷ hs)) hs (λ g (i, a). (inr i, a))
      (Offers-IsCandidate hs),
)

abbrev OnSome : (Host → Type 0) → Option Host → Type 0
OnSome Q none = ⊥
OnSome Q (some h) = Q h

module _ (Q : Host → Type 0) (draws : Draws) where
  random_from-some :
      (count : ℕ) (b : Host) (pool : Pool)
      → Q b
      → Offers Q pool
      → OnSome Q (random_from draws count (some b) pool)
  unfolding random_from
  random_from-some count b [] q o = q
  random_from-some count b (h ∷ hs) q (p, o) = elim (Bool-cases (available h)) [
    | inr a ↦ rw a (random_from-some count b hs q o)
    | inl a ↦ elim (Bool-cases (draws count % suc count == 0)) [
      | inl d ↦ rw (a, d) (random_from-some (suc count) h hs (p a) o)
      | inr d ↦ rw (a, d) (random_from-some (suc count) b hs q o)
    ]
  ]

  random_from-Selects :
      (pool : Pool)
      → Offers Q pool
      → Selects Q (some_available pool) (random_from draws 0 none pool)
  unfolding random_from some_available
  random_from-Selects [] o = refl
  random_from-Selects (h ∷ hs) (p, o) = elim (Bool-cases (available h)) [
    | inr a ↦ rw a (random_from-Selects hs o)
    | inl a ↦
        let first_draw : (draws 0 % 1 == 0) ≡ true = ground arith in
        rw (a, first_draw)
          (selected (random_from draws 1 (some h) hs) (random_from-some 1 h hs (p a) o))
  ]
    where
      selected : (r : Option Host) → OnSome Q r → Selects Q true r
      selected none q = absurd q
      selected (some g) q = (q, refl)

-- `Random`, whatever is drawn, selects an available host of the pool, and none exactly if there is
-- none.
pub select_random-Selects :
    (draws : Draws) (pool : Pool)
    → Selects (IsCandidate pool) (some_available pool) (select_random draws pool)
unfolding select_random
select_random-Selects draws pool =
    random_from-Selects (IsCandidate pool) draws pool (Offers-IsCandidate pool)

select_first-from :
    (Q : Host → Type 0) (pool : Pool)
    → Offers Q pool
    → Selects Q (some_available pool) (select_first pool)
unfolding select_first some_available
select_first-from Q [] o = refl
select_first-from Q (h ∷ hs) (p, o) = elim (Bool-cases (available h)) [
  | inr a ↦ rw a (select_first-from Q hs o)
  | inl a ↦ rw a (p a, refl)
]

-- `First` selects an available host of the pool, and none exactly if there is none.
pub select_first-Selects :
    (pool : Pool) → Selects (IsCandidate pool) (some_available pool) (select_first pool)
select_first-Selects pool = select_first-from (IsCandidate pool) pool (Offers-IsCandidate pool)

-- No available host of the list has fewer connections than `h`.
abbrev pub IsLeast : Host → Pool → Type 0
IsLeast h [] = Unit
IsLeast h (g ∷ gs) = (available g ≡ true → h.conns ≤ g.conns) × IsLeast h gs

IsLeast-le : (h g : Host) (hs : Pool) → g.conns ≤ h.conns → IsLeast h hs → IsLeast g hs
IsLeast-le h g [] e l = tt
IsLeast-le h g (x ∷ hs) e (p, l) = (λ a. let p' = p a in omega arith, IsLeast-le h g hs e l)

record Holds (Q : Host → Type 0) (s : Least) (b : Host) : Type 0 where
  best_is : s.best ≡ some b
  conns_are : b.conns ≡ s.least
  wanted : Q b

module _ (Q : Host → Type 0) (draws : Draws) where
  abbrev LeastOf : ℕ → Pool → Option Host → Type 0
  LeastOf n hs = OnSome (λ h. Q h × (h.conns ≤ n) × IsLeast h hs)

  -- One round, on an available host.
  round-Holds :
      (s : Least) (b h : Host)
      → Holds Q s b
      → Q h
      → (b' : Host) × Holds Q (draw_least draws h (lower_least h s)) b'
        × (b'.conns ≤ s.least)
        × (b'.conns ≤ h.conns)
  round-Holds s b h k q = elim (Bool-cases (ltb h.conns s.least)) [
    | inl lower ↦ (
      h,
      record {
        best_is = unfold draw_least lower_least in ground arith;
        conns_are = unfold draw_least lower_least in ground arith;
        wanted = q;
      },
      ground arith,
      omega arith,
    )
    | inr not_lower ↦ elim (Bool-cases (h.conns == s.least && draws s.drawn % suc s.count == 0)) [
      | inl drawn ↦ (
        h,
        record {
          best_is = unfold draw_least lower_least in ground arith;
          conns_are = unfold draw_least lower_least in ground arith;
          wanted = q;
        },
        ground arith,
        omega arith,
      )
      | inr kept ↦ (
        b,
        record {
          best_is = unfold draw_least lower_least in ground (arith, k.best_is);
          conns_are = unfold draw_least lower_least in ground (arith, k.conns_are);
          wanted = k.wanted;
        },
        omega (arith, k.conns_are),
        ground (arith, k.conns_are),
      )
    ]
  ]

  skipped :
      (n : ℕ) (h : Host) (hs : Pool) (r : Option Host)
      → available h ≡ false
      → LeastOf n hs r
      → LeastOf n (h ∷ hs) r
  skipped n h hs none a l = l
  skipped n h hs (some g) a (q, e, l) = (q, e, (λ a'. absurd (cc), l))

  narrowed :
      (n m : ℕ) (h : Host) (hs : Pool) (r : Option Host)
      → m ≤ n
      → m ≤ h.conns
      → LeastOf m hs r
      → LeastOf n (h ∷ hs) r
  narrowed n m h hs none e e' l = l
  narrowed n m h hs (some g) e e' (q, e'', l) = (q, omega arith, (λ a. omega arith, l))

  least_from-taken :
      (s : Least) (h : Host) (hs : Pool)
      → available h ≡ true
      → least_from draws s (h ∷ hs) ≡ least_from draws (draw_least draws h (lower_least h s)) hs
  unfolding least_from
  least_from-taken s h hs a = rw a

  least_from-passed :
      (s : Least) (h : Host) (hs : Pool)
      → available h ≡ false
      → least_from draws s (h ∷ hs) ≡ least_from draws s hs
  unfolding least_from
  least_from-passed s h hs a = rw a

  least_from-some :
      (s : Least) (b : Host) (pool : Pool)
      → Holds Q s b
      → Offers Q pool
      → LeastOf s.least pool (least_from draws s pool).best
  unfolding least_from
  least_from-some s b [] k o = rw k.best_is (k.wanted, omega (arith, k.conns_are), tt)
  least_from-some s b (h ∷ hs) k (p, o) = elim (Bool-cases (available h)) [
    | inr a ↦
        subst (λ (t : Least). LeastOf s.least (h ∷ hs) t.best) (sym (least_from-passed s h hs a))
          (skipped s.least h hs (least_from draws s hs).best a (least_from-some s b hs k o))
    | inl a ↦
        let (b', k', e, e') = round-Holds s b h k (p a) in
        let s' = draw_least draws h (lower_least h s) in
        subst (λ (t : Least). LeastOf s.least (h ∷ hs) t.best) (sym (least_from-taken s h hs a))
          (narrowed s.least s'.least h hs (least_from draws s' hs).best
            (omega (arith, k'.conns_are)) (omega (arith, k'.conns_are))
            (least_from-some s' b' hs k' o))
  ]

  -- The loop from its start, where the least is a bound `m` of all connections.
  abbrev fresh : ℕ → Least
  fresh m = record { best = none; count = 0; least = m; drawn = 0 }

  first_round :
      (m : ℕ) (h : Host)
      → h.conns ≤ m
      → Q h
      → Holds Q (draw_least draws h (lower_least h (fresh m))) h
  unfolding draw_least lower_least
  first_round m h e q = elim (Bool-cases (ltb h.conns m)) [
    | inl lower ↦ record { best_is = ground arith; conns_are = ground arith; wanted = q }
    | inr top ↦ record { best_is = ground arith; conns_are = ground arith; wanted = q }
  ]

  abbrev SelectsLeast : Bool → Pool → Option Host → Type 0
  SelectsLeast any pool = Selects (λ h. Q h × IsLeast h pool) any

  least_from-Selects :
      (m : ℕ) (pool : Pool)
      → All (λ h. h.conns ≤ m) pool
      → Offers Q pool
      → SelectsLeast (some_available pool) pool (least_from draws (fresh m) pool).best
  unfolding least_from some_available
  least_from-Selects m [] b o = refl
  least_from-Selects m (h ∷ hs) (e, b) (p, o) = elim (Bool-cases (available h)) [
    | inr a ↦
        subst (λ (t : Least). SelectsLeast (some_available (h ∷ hs)) (h ∷ hs) t.best)
          (sym (least_from-passed (fresh m) h hs a))
          (passed a (some_available hs) (least_from draws (fresh m) hs).best
            (least_from-Selects m hs b o))
    | inl a ↦
        let s' = draw_least draws h (lower_least h (fresh m)) in
        let k = first_round m h e (p a) in
        subst (λ (t : Least). SelectsLeast (some_available (h ∷ hs)) (h ∷ hs) t.best)
          (sym (least_from-taken (fresh m) h hs a))
          (found a (least_from draws s' hs).best (omega (arith, k.conns_are))
            (least_from-some s' h hs k o))
  ]
    where
      passed :
          available h ≡ false
          → (any : Bool) (r : Option Host) → SelectsLeast any hs r
          → SelectsLeast (available h || any) (h ∷ hs) r
      passed a any none l = rw a l
      passed a any (some g) ((q, l), e) = ((q, (λ a'. absurd (cc), l)), cc)

      found :
          {n : ℕ}
          → available h ≡ true
          → (r : Option Host) → n ≤ h.conns
          → LeastOf n hs r
          → SelectsLeast (available h || some_available hs) (h ∷ hs) r
      found a none e l = absurd l
      found a (some g) e (q, e', l) = ((q, (λ a. omega arith, l)), rw a refl)

-- `LeastConn`, whatever is drawn, selects an available host of the pool that has the fewest
-- connections of the available ones, and none exactly if there is none; connections are 64-bit
-- integers, not below 0.
pub select_least_conn-Selects :
    (draws : Draws) (pool : Pool)
    → All (λ h. h.conns ≤ max_int64) pool
    → Selects
        (λ h. IsCandidate pool h × IsLeast h pool)
        (some_available pool)
        (select_least_conn draws pool)
unfolding select_least_conn
select_least_conn-Selects draws pool b =
    least_from-Selects (IsCandidate pool) draws max_int64 pool b (Offers-IsCandidate pool)
