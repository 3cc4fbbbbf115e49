-- ===== src/Mitm/Extensions.antt =====
-- The extensions of a hello as the protocol writes them, and what `parseRawClientHello` of
-- caddyhttp/httpserver/mitm.go learns from them.
use iotacaddy.Prelude.{
  ℕ, zero, suc, ◌+◌, ◌*◌, ◌/◌, ◌%◌, ◌^◌, ◌≤◌, ◌<◌, true, false, not, ◌||◌, some, List, [], ◌∷◌,
  ◌++◌, ◌≡◌, refl, ap, ◌∙◌, ltb, leb, ◌==◌, arith, length, take, length-append, take-length_append,
  drop-length_append, All,
}
use iotacaddy.Mitm.Wire.{Bytes, u16_at, from}
use iotacaddy.Mitm.Defs.{
  RawHello, go, read_curves, go_on, curves_extension, points_extension, extension_body,
  extension_round, parse_extensions_from, supported_curves, supported_points,
}

abbrev pub u16 : ℕ → Bytes
u16 n = (n / 256) ∷ (n % 256) ∷ []

abbrev pub u16s : List ℕ → Bytes
u16s [] = []
u16s (c ∷ cs) = (c / 256) ∷ (c % 256) ∷ u16s cs

pub data Extension : Type 0 where
  curves_extension_of : List ℕ → Extension
  points_extension_of : Bytes → Extension
  other_extension : ℕ → Bytes → Extension

abbrev pub type_of : Extension → ℕ
type_of (curves_extension_of cs) = supported_curves
type_of (points_extension_of ps) = supported_points
type_of (other_extension t bs) = t

abbrev pub content : Extension → Bytes
content (curves_extension_of cs) = u16 (2 * length cs) ++ u16s cs
content (points_extension_of ps) = length ps ∷ ps
content (other_extension t bs) = bs

abbrev pub encode_extension : Extension → Bytes
encode_extension e = u16 (type_of e) ++ (u16 (length (content e)) ++ content e)

abbrev pub encode_extensions : List Extension → Bytes
encode_extensions [] = []
encode_extensions (e ∷ es) = encode_extension e ++ encode_extensions es

-- The sizes and the type fit their fields, and another type is none of the two that are read.
abbrev pub IsWire : Extension → Type 0
IsWire (curves_extension_of cs) = length (u16 (2 * length cs) ++ u16s cs) < 2 ^ 16
IsWire (points_extension_of ps) = length ps < 2 ^ 8
IsWire (other_extension t bs) =
    (length bs < 2 ^ 16)
    × (t < 2 ^ 16)
    × ((t == supported_curves) ≡ false)
    × ((t == supported_points) ≡ false)

-- What an extension adds to the information.
abbrev pub learn : RawHello → Extension → RawHello
learn info (curves_extension_of cs) = record info {
  extensions = info.extensions ++ (supported_curves ∷ []);
  curves = cs;
}
learn info (points_extension_of ps) = record info {
  extensions = info.extensions ++ (supported_points ∷ []);
  points = ps;
}
learn info (other_extension t bs) = record info { extensions = info.extensions ++ (t ∷ []) }

abbrev pub learn_all : RawHello → List Extension → RawHello
learn_all info [] = info
learn_all info (e ∷ es) = learn_all (learn info e) es

pub join_u16 : (n : ℕ) → n / 256 * 256 + n % 256 ≡ n
join_u16 n = omega arith

pub ltb_ge : (m n : ℕ) → n ≤ m → ltb m n ≡ false
ltb_ge m n h = ground arith

pub from-append : (n : ℕ) (xs ys : Bytes) → n ≡ length xs → from n (xs ++ ys) ≡ some ys
unfolding from
from-append n xs ys h =
    let l : leb n (length (xs ++ ys)) ≡ true = ground (arith, length-append {0} xs ys) in
    rw l (rw h (ap (λ r. some r) (drop-length_append xs ys)))

pub length-u16s : (cs : List ℕ) → length (u16s cs) ≡ 2 * length cs
length-u16s [] = omega arith
length-u16s (c ∷ cs) = omega (arith, length-u16s cs)

read_curves-u16s :
    (cs : List ℕ) (rest : Bytes) → read_curves (length cs) (u16s cs ++ rest) ≡ some cs
unfolding read_curves u16_at
read_curves-u16s [] rest = refl
read_curves-u16s (c ∷ cs) rest =
    let f : from 2 (u16 c ++ (u16s cs ++ rest)) ≡ some (u16s cs ++ rest) =
      from-append 2 (u16 c) (u16s cs ++ rest) (omega arith) in
    rw (f, read_curves) (rw (read_curves-u16s cs rest) (ap (λ x. some (x ∷ cs)) (join_u16 c)))

go_on-content :
    (n : ℕ) (info : RawHello) (xs rest : Bytes)
    → n ≡ length xs
    → go_on n info (xs ++ rest) ≡ some (go info rest)
unfolding go_on
go_on-content n info xs rest h = rw (from-append n xs rest h) refl

curves_extension-content :
    (n : ℕ) (info : RawHello) (cs : List ℕ) (rest : Bytes)
    → n ≡ 2 + 2 * length cs
    → curves_extension n info ((u16 (2 * length cs) ++ u16s cs) ++ rest)
      ≡ some (go (record info { curves = cs }) rest)
unfolding curves_extension u16_at
curves_extension-content n info cs rest h =
    let bs : Bytes = (u16 (2 * length cs) ++ u16s cs) ++ rest in
    let l : 2 * length cs / 256 * 256 + 2 * length cs % 256 ≡ 2 * length cs =
      join_u16 (2 * length cs) in
    let a : ltb n 2 ≡ false = ltb_ge n 2 (omega arith) in
    let b : (2 * length cs % 2 == 1 || not (n == 2 * length cs + 2)) ≡ false = ground arith in
    let c : from 2 bs ≡ some (u16s cs ++ rest) =
      from-append 2 (u16 (2 * length cs)) (u16s cs ++ rest) (omega arith) in
    let d : 2 * length cs / 2 ≡ length cs = omega arith in
    let e = read_curves-u16s cs rest in
    let g : go_on n (record info { curves = cs }) bs
        ≡ some (go (record info { curves = cs }) rest) =
      go_on-content n (record info { curves = cs }) (u16 (2 * length cs) ++ u16s cs) rest
        (omega (arith, length-u16s cs)) in
    rw a (rw l (rw b (rw c (rw d (rw e g)))))

points_extension-content :
    (n : ℕ) (info : RawHello) (ps rest : Bytes)
    → n ≡ 1 + length ps
    → points_extension n info ((length ps ∷ ps) ++ rest)
      ≡ some (go (record info { points = ps }) rest)
unfolding points_extension
points_extension-content n info ps rest h =
    let bs : Bytes = (length ps ∷ ps) ++ rest in
    let a : ltb n 1 ≡ false = ltb_ge n 1 (omega arith) in
    let b : not (n == length ps + 1) ≡ false = ground arith in
    let c : from 1 bs ≡ some (ps ++ rest) =
      from-append 1 (length ps ∷ []) (ps ++ rest) (omega arith) in
    let d : take (length ps) (ps ++ rest) ≡ ps = take-length_append ps rest in
    let g : go_on n (record info { points = ps }) bs
        ≡ some (go (record info { points = ps }) rest) =
      go_on-content n (record info { points = ps }) (length ps ∷ ps) rest (omega arith) in
    rw a (rw b (rw c (rw d g)))

extension_body-content :
    (info : RawHello) (e : Extension) (rest : Bytes)
    → IsWire e
    → extension_body info (type_of e) (length (content e)) (content e ++ rest)
      ≡ some (go (learn info e) rest)
unfolding extension_body
extension_body-content info (curves_extension_of cs) rest h =
    let c = content (curves_extension_of cs) in
    rw (ltb_ge (length (c ++ rest)) (length c) (omega (arith, length-append {0} c rest))) (
      curves_extension-content (length c)
        (record info { extensions = info.extensions ++ (supported_curves ∷ []) }) cs rest
        (omega (arith, length-u16s cs)))
extension_body-content info (points_extension_of ps) rest h =
    let c = content (points_extension_of ps) in
    rw (ltb_ge (length (c ++ rest)) (length c) (omega (arith, length-append {0} c rest))) (
      points_extension-content (length c)
        (record info { extensions = info.extensions ++ (supported_points ∷ []) }) ps rest
        (omega arith))
extension_body-content info (other_extension t bs) rest (h, h', m, n) =
    rw (ltb_ge (length (bs ++ rest)) (length bs) (omega (arith, length-append {0} bs rest))) (
      rw m (
        rw n (
          go_on-content (length bs) (record info { extensions = info.extensions ++ (t ∷ []) }) bs
            rest refl)))

extension_round-head :
    (info : RawHello) (t n : ℕ) (bs : Bytes)
    → extension_round info (u16 t ++ (u16 n ++ bs)) ≡ extension_body info t n bs
unfolding extension_round u16_at
extension_round-head info t n bs =
    let a : ltb (length (u16 t ++ (u16 n ++ bs))) 4 ≡ false =
      ltb_ge (length (u16 t ++ (u16 n ++ bs))) 4 (omega arith) in
    let f : from 4 (u16 t ++ (u16 n ++ bs)) ≡ some bs =
      from-append 4 (u16 t ++ u16 n) bs (omega arith) in
    rw a (rw f (rw (join_u16 t) (rw (join_u16 n) refl)))

extension_round-encode :
    (info : RawHello) (e : Extension) (rest : Bytes)
    → IsWire e
    → extension_round info (encode_extension e ++ rest) ≡ some (go (learn info e) rest)
extension_round-encode info e rest h =
    extension_round-head info (type_of e) (length (content e)) (content e ++ rest)
    ∙ extension_body-content info e rest h

pub parse_extensions_from-encode :
    (es : List Extension) (f : ℕ) (info : RawHello)
    → All IsWire es
    → length (encode_extensions es) ≤ f
    → parse_extensions_from f info (encode_extensions es) ≡ some (learn_all info es)
unfolding parse_extensions_from
parse_extensions_from-encode [] f info h l = refl
parse_extensions_from-encode (e ∷ es) zero info h l = absurd (omega arith)
parse_extensions_from-encode (e ∷ es) (suc f) info (h, hs) l =
    let more = length-append {0} (content e) (encode_extensions es) in
    rw (extension_round-encode info e (encode_extensions es) h, parse_extensions_from)
      (parse_extensions_from-encode es f (learn info e) hs (omega (arith, more)))
