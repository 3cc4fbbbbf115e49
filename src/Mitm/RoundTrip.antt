-- ===== src/Mitm/RoundTrip.antt =====
-- A hello as the protocol writes it, and what `parseRawClientHello` of
-- caddyhttp/httpserver/mitm.go makes of it.
use iotacaddy.Prelude.{
  ℕ, zero, suc, ◌+◌, ◌*◌, ◌/◌, ◌%◌, ◌^◌, ◌≤◌, ◌<◌, true, false, ◌||◌, some, List, [], ◌∷◌, ◌++◌,
  ◌≡◌, refl, sym, ap, ◌∙◌, ltb, leb, ◌==◌, arith, length, get_elem?, take, length-append,
  take-length_append, append_assoc, All,
}
use iotacaddy.Mitm.Wire.{Bytes, u16_at, from, second_to}
use iotacaddy.Mitm.Defs.{
  RawHello, no_info, read_suites, parse_extensions, parse_compression, parse_suites,
  parse_raw_client_hello,
}
use iotacaddy.Mitm.Extensions.{
  u16, u16s, Extension, encode_extensions, IsWire, learn_all, join_u16, ltb_ge, from-append,
  length-u16s, parse_extensions_from-encode,
}

-- The message of the handshake: its type and length, the version, the random bytes, the session,
-- the cipher suites, the compression methods and the extensions.
pub record Hello : Type 0 where
  pub head : Bytes
  pub version : ℕ
  pub random : Bytes
  pub session : Bytes
  pub suites : List ℕ
  pub methods : Bytes
  pub extensions : List Extension

abbrev encode_tail : Hello → Bytes
encode_tail h = let es = encode_extensions h.extensions in u16 (length es) ++ es

abbrev encode_methods : Hello → Bytes
encode_methods h = (length h.methods ∷ h.methods) ++ encode_tail h

abbrev encode_suites : Hello → Bytes
encode_suites h = u16 (2 * length h.suites) ++ (u16s h.suites ++ encode_methods h)

unfoldable pub encode_hello : Hello → Bytes
encode_hello h =
    h.head ++ (u16 h.version ++ (h.random ++ ((length h.session ∷ h.session) ++ encode_suites h)))

-- The lengths that the protocol demands.
pub record IsHello (h : Hello) : Type 0 where
  pub head_is : length h.head ≡ 4
  pub random_is : length h.random ≡ 32
  pub session_le : length h.session ≤ 32
  pub suites_lt : length h.suites < 2 ^ 15
  pub methods_lt : length h.methods < 2 ^ 8
  pub extensions_lt : length (encode_extensions h.extensions) < 2 ^ 16
  pub extensions_are : All IsWire h.extensions

-- What there is to learn from a hello.
abbrev pub raw_info : Hello → RawHello
raw_info h =
    learn_all
      (record no_info {
        version = h.version;
        cipher_suites = h.suites;
        compression_methods = h.methods;
      })
      h.extensions

get_elem?-append :
    (xs ys : Bytes) (i k : ℕ) → i ≡ length xs + k → get_elem? (xs ++ ys) i ≡ get_elem? ys k
get_elem?-append [] ys i k h = let e : i ≡ k = omega arith in ap (get_elem? ys) e
get_elem?-append (x ∷ xs) ys zero k h = absurd (omega arith)
get_elem?-append (x ∷ xs) ys (suc i) k h = get_elem?-append xs ys i k (omega arith)

u16_at-append :
    (xs ys : Bytes) (n : ℕ) (i : ℕ) → i ≡ length xs → u16_at (xs ++ (u16 n ++ ys)) i ≡ some n
unfolding u16_at
u16_at-append xs ys n i h =
    rw (get_elem?-append xs (u16 n ++ ys) i 0 (omega arith)) (
      rw (get_elem?-append xs (u16 n ++ ys) (i + 1) 1 (omega arith))
        (ap (λ r. some r) (join_u16 n)))

read_suites-u16s :
    (cs : List ℕ) (i : ℕ) (pre rest : Bytes)
    → 2 + 2 * i ≡ length pre
    → read_suites (length cs) i (pre ++ (u16s cs ++ rest)) ≡ some cs
unfolding read_suites
read_suites-u16s [] i pre rest h = refl
read_suites-u16s (c ∷ cs) i pre rest h =
    let ih : read_suites (length cs) (suc i) (pre ++ (u16 c ++ (u16s cs ++ rest))) ≡ some cs =
      ap (read_suites (length cs) (suc i)) (sym (append_assoc pre (u16 c) (u16s cs ++ rest)))
      ∙ read_suites-u16s cs (suc i) (pre ++ u16 c) rest
          (omega (arith, length-append {0} pre (u16 c))) in
    rw (u16_at-append pre (u16s cs ++ rest) c (2 + 2 * i) h) (rw ih refl)

parse_extensions-encode :
    (info : RawHello) (h : Hello)
    → IsHello h
    → parse_extensions info (encode_tail h) ≡ some (learn_all info h.extensions)
unfolding parse_extensions
parse_extensions-encode info h w =
    let es = encode_extensions h.extensions in
    let a : ltb (length (encode_tail h)) 2 ≡ false =
      ltb_ge (length (encode_tail h)) 2 (omega arith) in
    let b : u16_at (encode_tail h) 0 ≡ some (length es) = u16_at-append [] es (length es) 0 refl in
    let c : from 2 (encode_tail h) ≡ some es = from-append 2 (u16 (length es)) es (omega arith) in
    let d : (length es == length es) ≡ true = ground arith in
    rw a (
      rw b (
        rw c (
          rw d (
            parse_extensions_from-encode h.extensions (length es) info w.extensions_are
              (omega arith)))))

parse_compression-encode :
    (info : RawHello) (h : Hello)
    → IsHello h
    → parse_compression info (encode_methods h)
      ≡ some (learn_all (record info { compression_methods = h.methods }) h.extensions)
unfolding parse_compression second_to
parse_compression-encode info h w =
    let bs = encode_methods h in
    let n = length h.methods in
    let m = length-append {0} h.methods (encode_tail h) in
    let a : ltb (length bs) 1 ≡ false = ltb_ge (length bs) 1 (omega arith) in
    let b : ltb (length bs) (1 + n) ≡ false = ltb_ge (length bs) (1 + n) (omega (arith, m)) in
    let c : leb (1 + n) (length bs) ≡ true = ground (arith, m) in
    let d : take n (h.methods ++ encode_tail h) ≡ h.methods =
      take-length_append h.methods (encode_tail h) in
    let e : from (1 + n) bs ≡ some (encode_tail h) =
      from-append (1 + n) (n ∷ h.methods) (encode_tail h) (omega arith) in
    rw a (
      rw b (
        rw c (
          rw d (
            rw e (parse_extensions-encode (record info { compression_methods = h.methods }) h w)))))

parse_suites-encode :
    (info : RawHello) (h : Hello)
    → IsHello h
    → parse_suites info (encode_suites h)
      ≡ some (
          learn_all
            (record info { cipher_suites = h.suites; compression_methods = h.methods })
            h.extensions)
unfolding parse_suites
parse_suites-encode info h w =
    let bs = encode_suites h in
    let n = 2 * length h.suites in
    let m = length-append {0} (u16s h.suites) (encode_methods h) in
    let m' = length-u16s h.suites in
    let a : ltb (length bs) 2 ≡ false = ltb_ge (length bs) 2 (omega arith) in
    let b : u16_at bs 0 ≡ some n = u16_at-append [] (u16s h.suites ++ encode_methods h) n 0 refl in
    let c : (n % 2 == 1 || ltb (length bs) (2 + n)) ≡ false = ground (arith, m, m') in
    let d : n / 2 ≡ length h.suites = omega arith in
    let e : read_suites (length h.suites) 0 bs ≡ some h.suites =
      read_suites-u16s h.suites 0 (u16 n) (encode_methods h) (omega arith) in
    let g : from (2 + n) bs ≡ some (encode_methods h) =
      from-append (2 + n) (u16 n ++ u16s h.suites) (encode_methods h) (omega (arith, m')) in
    rw a (
      rw b (
        rw c (
          rw d (
            rw e
              (rw g (parse_compression-encode (record info { cipher_suites = h.suites }) h w))))))

-- From a hello that is written as the protocol demands, the parser learns its version, its cipher
-- suites, its compression methods, the types of all extensions in order, and the curves and points
-- of the last extensions that hold them.
pub parse_raw_client_hello-encode :
    (h : Hello) → IsHello h → parse_raw_client_hello (encode_hello h) ≡ some (raw_info h)
unfolding parse_raw_client_hello encode_hello
parse_raw_client_hello-encode h w =
    let bs = encode_hello h in
    let x = (length h.session ∷ h.session) ++ encode_suites h in
    let front = h.head ++ (u16 h.version ++ h.random) in
    let s = length h.session in
    let whole : bs ≡ front ++ x = sym (append_assoc h.head (u16 h.version ++ h.random) x) in
    let m1 : length front ≡ 38 =
      omega (arith, length-append {0} h.head (u16 h.version ++ h.random), w.head_is, w.random_is) in
    let m2 : length bs ≡ 39 + s + length (encode_suites h) =
      ap length whole
      ∙ omega
          (arith, length-append {0} front x, length-append {0} h.session (encode_suites h), m1) in
    let a : ltb (length bs) 42 ≡ false = ltb_ge (length bs) 42 (
      omega (
        arith,
        m2,
        length-append {0} (u16s h.suites) (encode_methods h),
        length-append {0} h.methods (encode_tail h),
      )) in
    let b : u16_at bs 4 ≡ some h.version =
      u16_at-append h.head (h.random ++ x) h.version 4 (sym w.head_is) in
    let c : get_elem? bs 38 ≡ some s =
      ap (λ r. get_elem? r 38) whole ∙ get_elem?-append front x 38 0 (omega arith) in
    let d : (ltb 32 s || ltb (length bs) (39 + s)) ≡ false =
      let l = w.session_le in ground (arith, m2) in
    let e : from (39 + s) bs ≡ some (encode_suites h) =
      ap (from (39 + s)) (whole ∙ sym (append_assoc front (s ∷ h.session) (encode_suites h)))
      ∙ from-append (39 + s) (front ++ (s ∷ h.session)) (encode_suites h)
          (omega (arith, length-append {0} front (s ∷ h.session), m1)) in
    rw a
      (rw b (rw c (rw d (rw e (parse_suites-encode (record no_info { version = h.version }) h w)))))
