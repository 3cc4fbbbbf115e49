-- ===== src/Proxy/Match.antt =====
-- The upstream that `Proxy.match` of caddyhttp/proxy/proxy.go finds.
use iotacaddy.Prelude.{
  ℕ, zero, suc, ◌≤◌, ◌<◌, Bool, true, not, ◌||◌, Option, none, some, List, [], ◌∷◌, ◌≡◌, refl, sym,
  ap, subst, ltb, arith, Text, get_elem?, Bool-cases, inl, inr,
}
use iotacaddy.Proxy.Defs.{byte_length, PathOps, matches, Upstream, match_from, match}

module _ {S : Type 0} (o : PathOps) (path : Text) where
  -- The path is below that of the upstream, and not excepted.
  abbrev pub applies : Upstream S → Bool
  applies u = not (not (matches o path u.from) || not (u.allowed_path path))

  -- The first of the longest among those that apply and are longer than `n`.
  pub record IsLongest (n : ℕ) (us : List (Upstream S)) (u : Upstream S) : Type 0 where
    pub index : ℕ
    pub stands : get_elem? us index ≡ some u
    pub does_apply : applies u ≡ true
    pub longer : n < byte_length u.from
    pub before :
        (j : ℕ) (v : Upstream S)
        → get_elem? us j ≡ some v
        → applies v ≡ true
        → j < index
        → byte_length v.from < byte_length u.from
    pub all :
        (j : ℕ) (v : Upstream S)
        → get_elem? us j ≡ some v
        → applies v ≡ true
        → byte_length v.from ≤ byte_length u.from

  pub data Found (n : ℕ) (u : Option (Upstream S)) (us : List (Upstream S))
      : Option (Upstream S) → Type 0 where
    kept :
        ((j : ℕ) (v : Upstream S)
          → get_elem? us j ≡ some v
          → applies v ≡ true
          → byte_length v.from ≤ n)
        → Found n u us u
    found : (v : Upstream S) → IsLongest n us v → Found n u us (some v)

  some-injective : {u v : Upstream S} → some u ≡ some v → u ≡ v
  some-injective h = cc

  IsLongest-cons :
      (n m : ℕ) (v : Upstream S) (vs : List (Upstream S)) (u : Upstream S)
      → n ≤ m
      → (applies v ≡ true → byte_length v.from < byte_length u.from)
      → IsLongest m vs u
      → IsLongest n (v ∷ vs) u
  IsLongest-cons n m v vs u h g l = record {
    index = suc l.index;
    stands = l.stands;
    does_apply = l.does_apply;
    longer = let k = l.longer in omega arith;
    before = behind;
    all = everywhere;
  }
    where
      first :
          (w : Upstream S)
          → some v ≡ some w
          → applies w ≡ true
          → byte_length w.from < byte_length u.from
      first w e a =
          let e' = some-injective e in
          subst (λ r. byte_length r.from < byte_length u.from) e'
            (g (subst (λ r. applies r ≡ true) (sym e') a))

      everywhere :
          (j : ℕ) (w : Upstream S)
          → get_elem? (v ∷ vs) j ≡ some w
          → applies w ≡ true
          → byte_length w.from ≤ byte_length u.from
      everywhere zero w e a = let k = first w e a in omega arith
      everywhere (suc j) w e a = l.all j w e a

      behind :
          (j : ℕ) (w : Upstream S)
          → get_elem? (v ∷ vs) j ≡ some w
          → applies w ≡ true
          → j < suc l.index
          → byte_length w.from < byte_length u.from
      behind zero w e a k = first w e a
      behind (suc j) w e a k = l.before j w e a (omega arith)

  IsLongest-here :
      (n : ℕ) (v : Upstream S) (vs : List (Upstream S))
      → applies v ≡ true
      → n < byte_length v.from
      → ((j : ℕ) (w : Upstream S)
          → get_elem? vs j ≡ some w
          → applies w ≡ true
          → byte_length w.from ≤ byte_length v.from)
      → IsLongest n (v ∷ vs) v
  IsLongest-here n v vs a h g = record {
    index = 0;
    stands = refl;
    does_apply = a;
    longer = h;
    before = λ j w e a' k. absurd (omega arith);
    all = everywhere;
  }
    where
      everywhere :
          (j : ℕ) (w : Upstream S)
          → get_elem? (v ∷ vs) j ≡ some w
          → applies w ≡ true
          → byte_length w.from ≤ byte_length v.from
      everywhere zero w e a' =
          let q = ap (λ r. byte_length r.from) (some-injective e) in omega arith
      everywhere (suc j) w e a' = g j w e a'

  -- One that is passed over.
  Found-over :
      (n : ℕ) (u : Option (Upstream S)) (v : Upstream S) (vs : List (Upstream S))
      (r : Option (Upstream S))
      → (applies v ≡ true → byte_length v.from ≤ n)
      → Found n u vs r
      → Found n u (v ∷ vs) r
  Found-over n u v vs r h (kept g) = kept (everywhere g)
    where
      everywhere :
          ((j : ℕ) (w : Upstream S)
            → get_elem? vs j ≡ some w
            → applies w ≡ true
            → byte_length w.from ≤ n)
          → (j : ℕ) (w : Upstream S) → get_elem? (v ∷ vs) j ≡ some w
          → applies w ≡ true
          → byte_length w.from ≤ n
      everywhere g zero w e a =
          let e' = some-injective e in
          subst (λ r. byte_length r.from ≤ n) e' (h (subst (λ r. applies r ≡ true) (sym e') a))
      everywhere g (suc j) w e a = g j w e a
  Found-over n u v vs r h (found w l) = found w (
      IsLongest-cons n n v vs w (omega arith) (λ a. let k = l.longer in let k' = h a in omega arith)
        l)

  -- One that is the longest so far.
  Found-taken :
      (n : ℕ) (u : Option (Upstream S)) (v : Upstream S) (vs : List (Upstream S))
      (r : Option (Upstream S))
      → applies v ≡ true
      → n < byte_length v.from
      → Found (byte_length v.from) (some v) vs r
      → Found n u (v ∷ vs) r
  Found-taken n u v vs r a h (kept g) = found v (IsLongest-here n v vs a h g)
  Found-taken n u v vs r a h (found w l) =
      found w (IsLongest-cons n (byte_length v.from) v vs w (omega arith) (λ a'. l.longer) l)

  match_from-Found :
      (n : ℕ) (u : Option (Upstream S)) (us : List (Upstream S))
      → Found n u us (match_from o path n u us)
  unfolding match_from
  match_from-Found n u [] = kept λ j v e a. absurd (cc)
  match_from-Found n u (v ∷ vs) =
      elim (Bool-cases (not (matches o path v.from) || not (v.allowed_path path))) [
        | inl e ↦ rw e (
            Found-over n u v vs _ (λ a. absurd (let a' = rw e at a in cc))
              (match_from-Found n u vs))
        | inr e ↦ elim (Bool-cases (ltb n (byte_length v.from))) [
          | inl l ↦ rw e (
              rw l (
                Found-taken n u v vs _ (rw e refl) (ground arith)
                  (match_from-Found (byte_length v.from) (some v) vs)))
          | inr l ↦
              rw e (rw l (Found-over n u v vs _ (λ a. ground arith) (match_from-Found n u vs)))
        ]
      ]

-- The upstream that is found applies to the path, its own path is at least as long as that of any
-- other that applies, and longer than that of any that stands before it; if none is found, then
-- none with a path that is not empty applies.
pub match-Found :
    {S : Type 0} (o : PathOps) (path : Text) (us : List (Upstream S))
    → Found o path 0 none us (match o path us)
unfolding match
match-Found o path us = match_from-Found o path 0 none us
