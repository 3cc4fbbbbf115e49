-- ===== src/Mitm/Order.antt =====
-- What `assertPresenceAndOrdering` of caddyhttp/httpserver/mitm.go finds out.
use iotacaddy.Prelude.{
  ℕ, zero, suc, ◌≤◌, true, false, some, List, [], ◌∷◌, ◌≡◌, ◌↔◌, refl, ap, ◌==◌, ==_iff, arith,
  get_elem?, Bool-cases, inl, inr,
}
use iotacaddy.Mitm.Looks.{seek, in_order, assert_presence_and_ordering}

-- The items stand in the list at positions that never decrease, from `j` on.
pub InOrderFrom : ℕ → List ℕ → List ℕ → Type 0
InOrderFrom j [] ys = Unit
InOrderFrom j (x ∷ xs) ys = (i : ℕ) × (j ≤ i) × (get_elem? ys i ≡ some x) × InOrderFrom i xs ys

InOrderFrom-le : (j i : ℕ) (xs ys : List ℕ) → j ≤ i → InOrderFrom i xs ys → InOrderFrom j xs ys
unfolding InOrderFrom
InOrderFrom-le j i [] ys h p = tt
InOrderFrom-le j i (x ∷ xs) ys h (k, g, e, p) = (k, omega arith, e, p)

InOrderFrom-suc : (j y : ℕ) (xs ys : List ℕ) → InOrderFrom j xs ys → InOrderFrom (suc j) xs (y ∷ ys)
unfolding InOrderFrom
InOrderFrom-suc j y [] ys p = tt
InOrderFrom-suc j y (x ∷ xs) ys (i, g, e, p) = (suc i, omega arith, e, InOrderFrom-suc i y xs ys p)

InOrderFrom-behind :
    (j y : ℕ) (xs ys : List ℕ) → InOrderFrom (suc j) xs (y ∷ ys) → InOrderFrom j xs ys
unfolding InOrderFrom
InOrderFrom-behind j y [] ys p = tt
InOrderFrom-behind j y (x ∷ xs) ys (zero, g, e, p) = absurd (omega arith)
InOrderFrom-behind j y (x ∷ xs) ys (suc i, g, e, p) =
    (i, omega arith, e, InOrderFrom-behind i y xs ys p)

some-injective : {a b : ℕ} → some a ≡ some b → a ≡ b
some-injective h = cc

in_order_here :
    (x y : ℕ) (xs ys : List ℕ) → (y == x) ≡ true → in_order (x ∷ xs) (y ∷ ys) ≡ in_order xs (y ∷ ys)
unfolding in_order seek
in_order_here x y xs ys e = rw (e, seek, in_order) refl

in_order_later :
    (x y : ℕ) (xs ys : List ℕ)
    → (y == x) ≡ false
    → in_order (x ∷ xs) (y ∷ ys) ≡ in_order (x ∷ xs) ys
unfolding in_order seek
in_order_later x y xs ys e = rw (e, seek, in_order) refl

in_order-InOrderFrom : (xs ys : List ℕ) → (in_order xs ys ≡ true) ↔ InOrderFrom 0 xs ys
unfolding InOrderFrom
in_order-InOrderFrom [] ys = (λ h. tt, λ h. unfold in_order in refl)
in_order-InOrderFrom (x ∷ xs) [] =
    (λ h. absurd (unfold in_order seek in cc), λ (i, g, e, p). absurd (cc))
in_order-InOrderFrom (x ∷ xs) (y ∷ ys) = elim (Bool-cases (y == x)) [
  | inl e ↦
      let ih = in_order-InOrderFrom xs (y ∷ ys) in
      rw (in_order_here x y xs ys e) (
        λ h. (0, omega arith, ap (λ z. some z) ((==_iff y x).0 e), ih.0 h),
        λ (i, g, e', p). ih.1 (InOrderFrom-le 0 i xs (y ∷ ys) g p),
      )
  | inr e ↦
      let ih = in_order-InOrderFrom (x ∷ xs) ys in
      rw (in_order_later x y xs ys e) (
        λ h. let (i, g, e', p) = ih.0 h in (suc i, omega arith, e', InOrderFrom-suc i y xs ys p),
        λ h. ih.1 (found e h),
      )
]
  where
    found : (y == x) ≡ false → InOrderFrom 0 (x ∷ xs) (y ∷ ys) → InOrderFrom 0 (x ∷ xs) ys
    found n (zero, g, e, p) = absurd (let e' = some-injective e in ground arith)
    found n (suc i, g, e, p) = (i, omega arith, e, InOrderFrom-behind i y xs ys p)

-- The code returns true if and only if the items of the subset stand in the superset at positions
-- that never decrease, where the flag says which of the two lists is the subset.
pub assert_presence_and_ordering-InOrderFrom :
    (required candidates : List ℕ)
    → ((assert_presence_and_ordering required candidates true ≡ true)
        ↔ InOrderFrom 0 required candidates)
      × ((assert_presence_and_ordering required candidates false ≡ true)
          ↔ InOrderFrom 0 candidates required)
unfolding assert_presence_and_ordering
assert_presence_and_ordering-InOrderFrom required candidates =
    (in_order-InOrderFrom required candidates, in_order-InOrderFrom candidates required)
