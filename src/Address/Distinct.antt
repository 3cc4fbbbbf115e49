-- ===== src/Address/Distinct.antt =====
-- The sites of a Caddyfile differ, by caddyhttp/httpserver/plugin.go.
use iotacaddy.Prelude.{
  false, Option, none, some, List, [], ◌∷◌, ◌≡◌, ◌≢◌, refl, subst, Text, text_eq_iff, Bool-cases,
  inl, inr, All, arith,
}
use iotacaddy.Address.Defs.{
  Address, Library, Settings, Standardized, standard, bad_host, no_url, scheme_twice,
  against_convention, standardize_address, normalize, key, to_string, Seen, Inspected, seen,
  refused, panicked, is_among, filled, with_port, add_address, add_key, inspect_standard,
  inspect_key, after_key, inspect_keys,
}

-- The keys of the sites that the texts of a Caddyfile stand for, and the addresses that they are
-- served at, with what the command line adds to them.
pub data AreSites (o : Library) (g : Settings) : List Text → List Text → List Text → Type 0 where
  none_left : AreSites o g [] [] []
  site :
      (t : Text) (a : Address) (k : Text) {ts ks ss : List Text}
      → standardize_address o g t ≡ standard a
      → key (normalize o g a) ≡ some k
      → AreSites o g ts ks ss
      → AreSites o g (t ∷ ts) (k ∷ ks) (to_string g (with_port g (filled g (normalize o g a))) ∷ ss)

pub data Distinct : List Text → Type 0 where
  empty : Distinct []
  more : (s : Text) (ts : List Text) → All (λ t. s ≢ t) ts → Distinct ts → Distinct (s ∷ ts)

-- None of the texts was seen.
abbrev AreNew : List Text → List Text → Type 0
AreNew old = All (λ t. is_among t old ≡ false)

AreNew-tail : (s : Text) (old ts : List Text) → AreNew (s ∷ old) ts → AreNew old ts
unfolding is_among
AreNew-tail s old [] h = tt
AreNew-tail s old (t ∷ ts) (h, hs) = (ground arith, AreNew-tail s old ts hs)

AreNew-head : (s : Text) (old ts : List Text) → AreNew (s ∷ old) ts → All (λ t. s ≢ t) ts
unfolding is_among
AreNew-head s old [] h = tt
AreNew-head s old (t ∷ ts) (h, hs) =
    (λ e. absurd (ground (arith, text_eq_iff s t)), AreNew-head s old ts hs)

-- The sites of the texts are distinct, and were not seen before.
abbrev IsAccepted : Library → Settings → List Text → Seen → Type 0
IsAccepted o g ts st =
    (ks : List Text) × (ss : List Text) × AreSites o g ts ks ss
    × Distinct ks
    × Distinct ss
    × AreNew st.keys ks
    × AreNew st.addresses ss

abbrev AcceptedIf : Library → Settings → List Text → Seen → Inspected → Type 0
AcceptedIf o g ts st refused = Unit
AcceptedIf o g ts st panicked = Unit
AcceptedIf o g ts st (seen st') = IsAccepted o g ts st

module _ (o : Library) (g : Settings) (t : Text) (ts : List Text) (st : Seen)
    (rest : Seen → Inspected) (ih : (st' : Seen) → AcceptedIf o g ts st' (rest st')) where
  add_site :
      (a : Address) (k : Text)
      → standardize_address o g t ≡ standard a
      → key (normalize o g a) ≡ some k
      → is_among k st.keys ≡ false
      → let s = to_string g (with_port g (filled g (normalize o g a))) in
        is_among s st.addresses ≡ false
        → (r : Inspected)
        → AcceptedIf o g ts (record { keys = k ∷ st.keys; addresses = s ∷ st.addresses }) r
        → AcceptedIf o g (t ∷ ts) st r
  add_site a k e e' n n' refused h = tt
  add_site a k e e' n n' panicked h = tt
  add_site a k e e' n n' (seen st') (ks, ss, h, dk, ds, nk, ns) =
      let s = to_string g (with_port g (filled g (normalize o g a))) in
      (
        k ∷ ks,
        s ∷ ss,
        site t a k e e' h,
        more k ks (AreNew-head k st.keys ks nk) dk,
        more s ss (AreNew-head s st.addresses ss ns) ds,
        (n, AreNew-tail k st.keys ks nk),
        (n', AreNew-tail s st.addresses ss ns),
      )

  add_address-AcceptedIf :
      (a : Address) (k : Text)
      → standardize_address o g t ≡ standard a
      → key (normalize o g a) ≡ some k
      → AcceptedIf o g (t ∷ ts) st (after_key rest (add_address g k (normalize o g a) st))
  unfolding add_address
  add_address-AcceptedIf a k e e' =
      let s = to_string g (with_port g (filled g (normalize o g a))) in
      elim (Bool-cases (is_among k st.keys)) [
        | inl n ↦ rw n tt
        | inr n ↦ elim (Bool-cases (is_among s st.addresses)) [
          | inl n' ↦ rw n (rw n' tt)
          | inr n' ↦ rw n (
              rw n' (
                add_site a k e e' n n'
                  (rest (record { keys = k ∷ st.keys; addresses = s ∷ st.addresses }))
                  (ih (record { keys = k ∷ st.keys; addresses = s ∷ st.addresses }))))
        ]
      ]

  add_key-AcceptedIf :
      (a : Address) (k : Option Text)
      → standardize_address o g t ≡ standard a
      → key (normalize o g a) ≡ k
      → AcceptedIf o g (t ∷ ts) st (after_key rest (add_key g (normalize o g a) st k))
  add_key-AcceptedIf a none e e' = tt
  add_key-AcceptedIf a (some k) e e' = add_address-AcceptedIf a k e e'

  inspect_standard-AcceptedIf :
      (r : Standardized)
      → standardize_address o g t ≡ r
      → AcceptedIf o g (t ∷ ts) st (after_key rest (inspect_standard o g st r))
  inspect_standard-AcceptedIf (standard a) e = add_key-AcceptedIf a (key (normalize o g a)) e refl
  inspect_standard-AcceptedIf (bad_host a) e = tt
  inspect_standard-AcceptedIf no_url e = tt
  inspect_standard-AcceptedIf scheme_twice e = tt
  inspect_standard-AcceptedIf against_convention e = tt

inspect_keys-AcceptedIf :
    (o : Library) (g : Settings) (ts : List Text) (st : Seen)
    → AcceptedIf o g ts st (inspect_keys o g ts st)
unfolding inspect_keys inspect_key
inspect_keys-AcceptedIf o g [] st = ([], [], none_left, empty, empty, tt, tt)
inspect_keys-AcceptedIf o g (t ∷ ts) st =
    inspect_standard-AcceptedIf o g t ts st (λ st'. inspect_keys o g ts st')
      (λ st'. inspect_keys-AcceptedIf o g ts st') (standardize_address o g t) refl

-- If the sites of a Caddyfile are accepted, then each of them has an address in the standard form
-- and a key, no two of their keys are the same, and no two of the addresses that they are served at,
-- with what the command line adds to them; none of these was seen before the first of the sites.
pub inspect_keys-AreDistinct :
    (o : Library) (g : Settings) (ts : List Text) (st st' : Seen)
    → inspect_keys o g ts st ≡ seen st'
    → (ks : List Text) × (ss : List Text) × AreSites o g ts ks ss
      × Distinct ks
      × Distinct ss
      × All (λ k. is_among k st.keys ≡ false) ks
      × All (λ s. is_among s st.addresses ≡ false) ss
inspect_keys-AreDistinct o g ts st st' e =
    subst (λ r. AcceptedIf o g ts st r) e (inspect_keys-AcceptedIf o g ts st)
