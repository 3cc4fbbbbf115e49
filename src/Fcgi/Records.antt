-- ===== src/Fcgi/Records.antt =====
-- One record of caddyhttp/fastcgi/fcgiclient.go, written and read.
use iotacaddy.Prelude.{
  ℕ, ◌+◌, ◌-◌, ◌*◌, ◌/◌, ◌%◌, ◌^◌, ◌<◌, ◌++◌, ◌≡◌, ◌≢◌, refl, ap, ◌∙◌, append_assoc, arith, length,
  drop, replicate, length-append, length-replicate, take-length_append, drop-length_append,
}
use iotacaddy.Fcgi.Defs.{
  Bytes, end_request, Header, init, encode_header, write_record, got, read_content, read_record,
}

-- The bytes behind the header of a record, with what follows it.
abbrev pub body : Bytes → Bytes → Bytes
body c rest = c ++ (replicate ((8 - length c % 8) % 8) 0 ++ rest)

read_content-body :
    (h : Header) (c rest : Bytes)
    → h.version ≡ 1
    → h.rec_type ≢ end_request
    → h.content_length ≡ length c
    → h.padding_length ≡ (8 - length c % 8) % 8
    → read_content h (body c rest) ≡ got h c rest
read_content-body h c rest v t l p =
    let pad : Bytes = replicate ((8 - length c % 8) % 8) 0 in
    let n : length (body c rest) ≡ length c + ((8 - length c % 8) % 8 + length rest) = omega (
      arith,
      length-append {0} c (pad ++ rest),
      length-append {0} pad rest,
      length-replicate {0} {A = ℕ} ((8 - length c % 8) % 8) 0,
    ) in
    let m : length (c ++ pad) ≡ length c + (8 - length c % 8) % 8 =
      omega
        (arith, length-append {0} c pad, length-replicate {0} {A = ℕ} ((8 - length c % 8) % 8) 0) in
    let d : drop (length c + (8 - length c % 8) % 8) (body c rest) ≡ rest =
      rw (← m) (rw (← append_assoc c pad rest) (drop-length_append (c ++ pad) rest)) in
    ground (arith, take-length_append c (pad ++ rest))

-- The header as it is read, its 16-bit fields put together from their bytes.
abbrev joined : ℕ → ℕ → ℕ → Header
joined t id n = record (init t id n) {
  id = id / 256 * 256 + id % 256;
  content_length = n % 2 ^ 16 / 256 * 256 + n % 2 ^ 16 % 256;
}

joined-init : (t id n : ℕ) → joined t id n ≡ init t id n
joined-init t id n = ground arith

write_record-append :
    (t id : ℕ) (c rest : Bytes)
    → write_record t id c ++ rest ≡ encode_header (init t id (length c)) ++ body c rest
unfolding write_record
write_record-append t id c rest =
    ap (λ r. encode_header (init t id (length c)) ++ r)
      (append_assoc c (replicate ((8 - length c % 8) % 8) 0) rest)

-- A record is read back with its type, its identifier and its content, the padding dropped; the
-- bytes behind it are left. Its content has fewer than 2 ^ 16 bytes, and it does not end a request.
pub read_record-write_record :
    (t id : ℕ) (c rest : Bytes)
    → t ≢ end_request
    → length c < 2 ^ 16
    → read_record (write_record t id c ++ rest) ≡ got (init t id (length c)) c rest
unfolding read_record
read_record-write_record t id c rest n l = rw (write_record-append t id c rest) (
    read_content-body (joined t id (length c)) c rest refl n (omega arith) refl
    ∙ ap (λ h. got h c rest) (joined-init t id (length c)))
