-- ===== src/Mitm/Conn.antt =====
-- The connection of caddyhttp/httpserver/mitm.go that listens in on the hello, read after read.
use iotacaddy.Prelude.{
  ℕ, ◌+◌, ◌*◌, ◌^◌, ◌≤◌, ◌<◌, true, false, Option, none, some, List, [], ◌∷◌, ◌++◌, ◌≡◌, refl, ap,
  ◌∙◌, append_assoc, append-nil, ltb, arith, length, take, drop, length-append, take-length_append,
  drop-length_append,
}
use iotacaddy.Mitm.Wire.{Bytes, ◌>>=◌}
use iotacaddy.Mitm.Defs.{HelloConn, take_hello, read}
use iotacaddy.Mitm.Extensions.{u16, join_u16, ltb_ge}
use iotacaddy.Mitm.RoundTrip.{Hello, IsHello, encode_hello, raw_info, parse_raw_client_hello-encode}

-- Reads without errors, one for each piece.
pub read_all : HelloConn → List Bytes → Option HelloConn
read_all c [] = some c
read_all c (b ∷ bs) = do c' ← read c b false; read_all c' bs

abbrev pub new_conn : HelloConn
new_conn = record { read_hello = false; buf = []; info = none }

abbrev pub concat : List Bytes → Bytes
concat [] = []
concat (b ∷ bs) = b ++ concat bs

-- A record of the handshake that holds `hello`.
abbrev pub header : Bytes → Bytes
header hello = 22 ∷ 3 ∷ 1 ∷ u16 (length hello)

abbrev heard : Bytes → Option HelloConn
heard buf = take_hello (record { read_hello = false; buf = buf; info = none })

-- Pieces of fewer than five bytes in all are kept, and the next piece is joined to them.
read_all-short :
    (bs : List Bytes) (buf last : Bytes)
    → length (buf ++ concat bs) < 5
    → 5 ≤ length ((buf ++ concat bs) ++ last)
    → read_all (record { read_hello = false; buf = buf; info = none }) (bs ++ (last ∷ []))
      ≡ (heard ((buf ++ concat bs) ++ last) >>= some)
unfolding read_all read
read_all-short [] buf last h l =
    let e = append-nil buf in
    let a : ltb (length (buf ++ last)) 5 ≡ false =
      ltb_ge (length (buf ++ last)) 5 (omega (arith, ap (λ r. length (r ++ last)) e)) in
    rw a (rw e refl)
read_all-short (b ∷ bs) buf last h l =
    let e = append_assoc buf b (concat bs) in
    let m = length-append {0} (buf ++ b) (concat bs) in
    let m' = ap (length {A = ℕ}) e in
    let a : ltb (length (buf ++ b)) 5 ≡ true = ground (arith, m, m') in
    rw a (
      rw (← e) (
        read_all-short bs (buf ++ b) last (omega (arith, m'))
          (omega (arith, ap (λ r. length (r ++ last)) e))))

take_hello-encode :
    (h : Hello) (more : Bytes)
    → IsHello h
    → length (encode_hello h) < 2 ^ 16
    → heard (header (encode_hello h) ++ (encode_hello h ++ more))
      ≡ some (record { read_hello = true; buf = more; info = some (raw_info h) })
unfolding take_hello
take_hello-encode h more w l =
    let hello = encode_hello h in
    let n = join_u16 (length hello) in
    let a : ltb (length (hello ++ more)) (length hello) ≡ false =
      ltb_ge (length (hello ++ more)) (length hello)
        (omega (arith, length-append {0} hello more)) in
    let b : take (length hello) (hello ++ more) ≡ hello = take-length_append hello more in
    let c : drop (length hello) (hello ++ more) ≡ more = drop-length_append hello more in
    rw n (rw a (rw b (rw c (rw (parse_raw_client_hello-encode h w) refl))))

-- If the piece that brings the fifth byte brings all of the record of a hello, then the connection
-- has what there is to learn from the hello, however the bytes before that piece were cut.
pub read_all-encode :
    (h : Hello) (bs : List Bytes) (last more : Bytes)
    → IsHello h
    → length (encode_hello h) < 2 ^ 16
    → length (concat bs) < 5
    → concat bs ++ last ≡ header (encode_hello h) ++ (encode_hello h ++ more)
    → read_all new_conn (bs ++ (last ∷ []))
      ≡ some (record { read_hello = true; buf = more; info = some (raw_info h) })
read_all-encode h bs last more w l s e =
    read_all-short bs [] last s (omega (arith, ap (length {A = ℕ}) e))
    ∙ ap (λ r. heard r >>= some) e
    ∙ ap (λ o. o >>= some) (take_hello-encode h more w l)

-- If the header of the record is read by itself, the header is gone before the hello comes: five
-- bytes of the hello are taken for a header, and with the length that two of them then make up,
-- no hello is found where fewer bytes follow.
pub read_all_split :
    (a b c d e : ℕ) (rest : Bytes)
    → length rest < d * 256 + e
    → let hello : Bytes = a ∷ b ∷ c ∷ d ∷ e ∷ rest in
      read_all new_conn (header hello ∷ hello ∷ [])
      ≡ some (record { read_hello = false; buf = rest; info = none })
unfolding read_all read take_hello
read_all_split a b c d e rest h =
    let n = join_u16 (length (a ∷ b ∷ c ∷ d ∷ e ∷ rest)) in
    let x : ltb 0 (length (a ∷ b ∷ c ∷ d ∷ e ∷ rest)) ≡ true = ground arith in
    let y : ltb (length (a ∷ b ∷ c ∷ d ∷ e ∷ rest)) 5 ≡ false = ltb_ge _ 5 (omega arith) in
    let z : ltb (length rest) (d * 256 + e) ≡ true = ground arith in rw n (rw x (rw y (rw z refl)))
