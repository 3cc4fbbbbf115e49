-- ===== src/Mitm/Bounds.antt =====
-- That `parseRawClientHello` of caddyhttp/httpserver/mitm.go stays inside of its bytes.
use iotacaddy.Prelude.{
  ℕ, zero, suc, ◌+◌, ◌*◌, ◌/◌, ◌%◌, ◌≤◌, Bool, true, false, not, ◌||◌, Option, some, [], ◌∷◌, ◌++◌,
  ◌≡◌, refl, if◌then◌else◌, ltb, ◌==◌, arith, length, get_elem?, take,
}
use iotacaddy.Mitm.Wire.{
  Bytes, ◌>>=◌, u16_at, from, second_to, Returns, Returns-some, Returns-bind, Returns-if,
  Returns-get, Returns-u16_at, Returns-from, Returns-second_to, length-from,
}
use iotacaddy.Mitm.Defs.{
  RawHello, Round, stop, go, read_suites, read_curves, go_on, curves_extension, points_extension,
  extension_body, extension_round, parse_extensions_from, parse_extensions, parse_compression,
  parse_suites, parse_raw_client_hello, supported_curves, supported_points,
}

read_suites-Returns :
    (n i : ℕ) (bs : Bytes) → 2 + 2 * (i + n) ≤ length bs → Returns (read_suites n i bs)
unfolding read_suites
read_suites-Returns zero i bs h = Returns-some _
read_suites-Returns (suc n) i bs h =
    Returns-bind (u16_at bs (2 + 2 * i)) _ (Returns-u16_at bs (2 + 2 * i) (omega arith)) λ c e.
      Returns-bind (read_suites n (suc i) bs) _ (read_suites-Returns n (suc i) bs (omega arith))
        λ cs e'. Returns-some _

read_curves-Returns : (n : ℕ) (d : Bytes) → 2 * n ≤ length d → Returns (read_curves n d)
unfolding read_curves
read_curves-Returns zero d h = Returns-some _
read_curves-Returns (suc n) d h =
    Returns-bind (u16_at d 0) _ (Returns-u16_at d 0 (omega arith)) λ c e.
      Returns-bind (from 2 d) _ (Returns-from 2 d (omega arith)) λ d' e'.
        Returns-bind (read_curves n d') _
          (read_curves-Returns n d' (omega (arith, length-from 2 d d' e'))) λ cs e''. Returns-some _

-- A round that goes on leaves no more than `m` bytes.
Leaves : ℕ → Round → Type 0
Leaves m (stop info) = Unit
Leaves m (go info bs) = length bs ≤ m

record Rounds (m : ℕ) (o : Option Round) : Type 0 where
  round : Round
  is_round : o ≡ some round
  leaves : Leaves m round

Rounds-stop : (m : ℕ) (info : RawHello) → Rounds m (some (stop info))
unfolding Leaves
Rounds-stop m info = record { round = stop info; is_round = refl; leaves = tt }

Rounds-bind :
    {A : Type 0} (m : ℕ) (o : Option A) (f : A → Option Round)
    → Returns o
    → ((a : A) → o ≡ some a → Rounds m (f a))
    → Rounds m (o >>= f)
Rounds-bind m o f r h = rw r.is_value (h r.value r.is_value)

Rounds-if :
    (m : ℕ) (b : Bool) (x y : Option Round)
    → (b ≡ true → Rounds m x)
    → (b ≡ false → Rounds m y)
    → Rounds m (if b then x else y)
Rounds-if m true x y h g = h refl
Rounds-if m false x y h g = g refl

go_on-Rounds :
    (n : ℕ) (info : RawHello) (bs : Bytes) → n ≤ length bs → Rounds (length bs) (go_on n info bs)
unfolding go_on Leaves
go_on-Rounds n info bs h = Rounds-bind (length bs) (from n bs) _ (Returns-from n bs h) λ bs' e.
    record { round = go info bs'; is_round = refl; leaves = omega (arith, length-from n bs bs' e) }

curves_extension-Rounds :
    (n : ℕ) (info : RawHello) (bs : Bytes)
    → n ≤ length bs
    → Rounds (length bs) (curves_extension n info bs)
unfolding curves_extension
curves_extension-Rounds n info bs h =
    let m = length bs in
    Rounds-if m (ltb n 2) _ _ (λ e. Rounds-stop m info)
      λ e. Rounds-bind m (u16_at bs 0) _ (Returns-u16_at bs 0 (ground arith)) λ l e'.
        Rounds-if m (l % 2 == 1 || not (n == l + 2)) _ _ (λ g. Rounds-stop m info)
          λ g. Rounds-bind m (from 2 bs) _ (Returns-from 2 bs (ground arith)) λ d k.
            Rounds-bind m (read_curves (l / 2) d) _
              (read_curves-Returns (l / 2) d (ground (arith, length-from 2 bs d k)))
              λ cs k'. go_on-Rounds n (record info { curves = cs }) bs h

points_extension-Rounds :
    (n : ℕ) (info : RawHello) (bs : Bytes)
    → n ≤ length bs
    → Rounds (length bs) (points_extension n info bs)
unfolding points_extension
points_extension-Rounds n info bs h =
    let m = length bs in
    Rounds-if m (ltb n 1) _ _ (λ e. Rounds-stop m info)
      λ e. Rounds-bind m (get_elem? bs 0) _ (Returns-get bs 0 (ground arith)) λ l e'.
        Rounds-if m (not (n == l + 1)) _ _ (λ g. Rounds-stop m info)
          λ g.
            Rounds-bind m (from 1 bs) _ (Returns-from 1 bs (ground arith))
              λ d k. go_on-Rounds n (record info { points = take l d }) bs h

extension_body-Rounds :
    (info : RawHello) (extension n : ℕ) (bs : Bytes)
    → Rounds (length bs) (extension_body info extension n bs)
unfolding extension_body
extension_body-Rounds info extension n bs =
    let m = length bs in
    let info' = record info { extensions = info.extensions ++ (extension ∷ []) } in
    Rounds-if m (ltb (length bs) n) _ _ (λ e. Rounds-stop m info)
      λ e.
        Rounds-if m (extension == supported_curves) _ _
          (λ g. curves_extension-Rounds n info' bs (ground arith))
          λ g.
            Rounds-if m (extension == supported_points) _ _
              (λ k. points_extension-Rounds n info' bs (ground arith))
              λ k. go_on-Rounds n info' bs (ground arith)

extension_round-Rounds :
    (info : RawHello) (b : ℕ) (bs : Bytes) → Rounds (length bs) (extension_round info (b ∷ bs))
unfolding extension_round Leaves
extension_round-Rounds info b bs =
    let m = length bs in
    Rounds-if m (ltb (length (b ∷ bs)) 4) _ _ (λ e. Rounds-stop m info)
      λ e. Rounds-bind m (u16_at (b ∷ bs) 0) _ (Returns-u16_at (b ∷ bs) 0 (ground arith)) λ x k.
        Rounds-bind m (u16_at (b ∷ bs) 2) _ (Returns-u16_at (b ∷ bs) 2 (ground arith)) λ n k'.
          Rounds-bind m (from 4 (b ∷ bs)) _ (Returns-from 4 (b ∷ bs) (ground arith)) λ bs' k''.
            fewer (length bs') m _ (omega (arith, length-from 4 (b ∷ bs) bs' k''))
              (extension_body-Rounds info x n bs')
  where
    weaken : (n m : ℕ) (r : Round) → n ≤ m → Leaves n r → Leaves m r
    weaken n m (stop info) h l = tt
    weaken n m (go info bs) h l = omega arith

    fewer : (n m : ℕ) (o : Option Round) → n ≤ m → Rounds n o → Rounds m o
    fewer n m o h r = record {
      round = r.round;
      is_round = r.is_round;
      leaves = weaken n m r.round h r.leaves;
    }

parse_extensions_from-Returns :
    (f : ℕ) (info : RawHello) (bs : Bytes)
    → length bs ≤ f
    → Returns (parse_extensions_from f info bs)
unfolding parse_extensions_from Leaves
parse_extensions_from-Returns f info [] h = Returns-some _
parse_extensions_from-Returns zero info (b ∷ bs) h = absurd (omega arith)
parse_extensions_from-Returns (suc f) info (b ∷ bs) h =
    let r = extension_round-Rounds info b bs in
    rw (r.is_round, parse_extensions_from)
      (after (parse_extensions_from-Returns f) r.round r.leaves)
  where
    after :
        ((i : RawHello) (bs' : Bytes) → length bs' ≤ f → Returns (parse_extensions_from f i bs'))
        → (r : Round) → Leaves (length bs) r
        → Returns (elim r [ stop i ↦ some i | go i bs' ↦ parse_extensions_from f i bs' ])
    after ih (stop i) l = Returns-some i
    after ih (go i bs') l = ih i bs' (omega arith)

parse_extensions-Returns : (info : RawHello) (bs : Bytes) → Returns (parse_extensions info bs)
unfolding parse_extensions
parse_extensions-Returns info bs =
    Returns-if (ltb (length bs) 2) _ _ (λ e. Returns-some _)
      λ e. Returns-bind (u16_at bs 0) _ (Returns-u16_at bs 0 (ground arith)) λ n k.
        Returns-bind (from 2 bs) _ (Returns-from 2 bs (ground arith)) λ bs' k'.
          Returns-if (n == length bs') _ _
            (λ g. parse_extensions_from-Returns (length bs') info bs' (omega arith))
            λ g. Returns-some _

parse_compression-Returns : (info : RawHello) (bs : Bytes) → Returns (parse_compression info bs)
unfolding parse_compression
parse_compression-Returns info bs =
    Returns-if (ltb (length bs) 1) _ _ (λ e. Returns-some _)
      λ e. Returns-bind (get_elem? bs 0) _ (Returns-get bs 0 (ground arith)) λ n k.
        Returns-if (ltb (length bs) (1 + n)) _ _ (λ g. Returns-some _)
          λ g. Returns-bind (second_to n bs) _ (Returns-second_to n bs (ground arith)) λ methods k'.
            Returns-bind (from (1 + n) bs) _ (Returns-from (1 + n) bs (ground arith))
              λ bs' k''. parse_extensions-Returns _ bs'

parse_suites-Returns : (info : RawHello) (bs : Bytes) → Returns (parse_suites info bs)
unfolding parse_suites
parse_suites-Returns info bs =
    Returns-if (ltb (length bs) 2) _ _ (λ e. Returns-some _)
      λ e. Returns-bind (u16_at bs 0) _ (Returns-u16_at bs 0 (ground arith)) λ n k.
        Returns-if (n % 2 == 1 || ltb (length bs) (2 + n)) _ _ (λ g. Returns-some _)
          λ g.
            Returns-bind (read_suites (n / 2) 0 bs) _
              (read_suites-Returns (n / 2) 0 bs (ground arith))
              λ suites k'.
                Returns-bind (from (2 + n) bs) _ (Returns-from (2 + n) bs (ground arith))
                  λ bs' k''. parse_compression-Returns _ bs'

-- On every sequence of bytes the parser returns: no index or slice is out of range, and the loop
-- over the extensions ends.
pub parse_raw_client_hello-Returns : (bs : Bytes) → Returns (parse_raw_client_hello bs)
unfolding parse_raw_client_hello
parse_raw_client_hello-Returns bs =
    Returns-if (ltb (length bs) 42) _ _ (λ e. Returns-some _)
      λ e. Returns-bind (u16_at bs 4) _ (Returns-u16_at bs 4 (ground arith)) λ v k.
        Returns-bind (get_elem? bs 38) _ (Returns-get bs 38 (ground arith)) λ s k'.
          Returns-if (ltb 32 s || ltb (length bs) (39 + s)) _ _ (λ g. Returns-some _)
            λ g.
              Returns-bind (from (39 + s) bs) _ (Returns-from (39 + s) bs (ground arith))
                λ bs' k''. parse_suites-Returns _ bs'
