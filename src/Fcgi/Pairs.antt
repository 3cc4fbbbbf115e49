-- ===== src/Fcgi/Pairs.antt =====
-- The parameters that caddyhttp/fastcgi/fcgiclient.go sends, as a server reads them.
use iotacaddy.Prelude.{
  ℕ, zero, suc, ◌+◌, ◌-◌, ◌*◌, ◌^◌, ◌≤◌, ◌<◌, true, false, Option, none, some, List, [], ◌∷◌, ◌++◌,
  map, ◌≡◌, ◌≢◌, refl, sym, ap, ◌∙◌, append-nil, append_assoc, ltb, if◌then◌else◌, arith, length,
  take, drop, take_all, length-take-le, take-length_append, drop-length_append, Bool-cases, inl,
  inr, All,
}
use iotacaddy.Fcgi.Defs.{
  Bytes, max_write, end_request, stream_write, stream_close, encode_size, Pair, fit_value,
  encode_pair, with_flushed, write_pairs_from, write_pairs,
}
use iotacaddy.Fcgi.Streams.{stream_contents, stream_contents-close, stream_contents-write}

-- The size of a key or a value, as the protocol reads it.
decode_size : Bytes → Option (ℕ × Bytes)
decode_size [] = none
decode_size (b ∷ bs) = elim (ltb b 128) [ true ↦ some (b, bs) | false ↦ wide b bs ]
  where
    wide : ℕ → Bytes → Option (ℕ × Bytes)
    wide b (c ∷ d ∷ e ∷ rest) = some ((b - 128) * 2 ^ 24 + c * 2 ^ 16 + d * 2 ^ 8 + e, rest)
    wide b _ = none

decode_size-encode_size :
    (n : ℕ) (rest : Bytes) → n < 2 ^ 31 → decode_size (encode_size n ++ rest) ≡ some (n, rest)
unfolding decode_size encode_size
decode_size-encode_size n rest h = ground arith

-- The pairs of a stream, in order.
abbrev no_more : Bytes → Option (List Pair)
no_more [] = some []
no_more (_ ∷ _) = none

abbrev with_pair : Pair → Option (List Pair) → Option (List Pair)
with_pair p none = none
with_pair p (some ps) = some (p ∷ ps)

pub decode_pairs : ℕ → Bytes → Option (List Pair)
decode_pairs zero bs = none
decode_pairs (suc f) bs = elim (decode_size bs) [
  | none ↦ no_more bs
  | some (n, r) ↦ elim (decode_size r) [
    | none ↦ none
    | some (m, s) ↦ with_pair (take n s, take m (drop n s)) (decode_pairs f (drop m (drop n s)))
  ]
]

unfoldable pub encode_all : List Pair → Bytes
encode_all [] = []
encode_all (p ∷ ps) = encode_pair p ++ encode_all ps

-- The key fits a record, and so does what is sent of the value.
abbrev pub Fits : Pair → Type 0
Fits (k, v) = 8 + length k ≤ max_write

abbrev pub fitted : Pair → Pair
fitted (k, v) = (k, take (max_write - 8 - length k) v)

fit_value-fitted :
    (k v : Bytes) (w : ℕ)
    → 8 + length k ≤ w
    → (if ltb w (8 + length k + length v)
        then if ltb w (8 + length k) then none else some (take (w - 8 - length k) v)
        else some v)
      ≡ some (take (w - 8 - length k) v)
fit_value-fitted k v w h = elim (Bool-cases (ltb w (8 + length k + length v))) [
  | inl e ↦ let e' : ltb w (8 + length k) ≡ false = ground arith in rw e (rw e' refl)
  | inr e ↦ rw e (ap (λ r. some r) (sym (take_all (w - 8 - length k) v (ground arith))))
]

fit_value-eq :
    (k v : Bytes)
    → 8 + length k ≤ max_write
    → fit_value k v ≡ some (take (max_write - 8 - length k) v)
unfolding fit_value
fit_value-eq k v h = fit_value-fitted k v max_write h

length-map : (f : Pair → Pair) (ps : List Pair) → length (map f ps) ≡ length ps
length-map f [] = refl
length-map f (p ∷ ps) = omega (arith, length-map f ps)

decode_first :
    (f : ℕ) (k v bs : Bytes)
    → length k < 2 ^ 31
    → length v < 2 ^ 31
    → decode_pairs (suc f) (encode_pair (k, v) ++ bs) ≡ with_pair (k, v) (decode_pairs f bs)
unfolding decode_pairs encode_pair
decode_first f k v bs a b =
    let s1 = append_assoc (encode_size (length k)) (encode_size (length v) ++ (k ++ v)) bs in
    let s2 = append_assoc (encode_size (length v)) (k ++ v) bs in
    let s3 = append_assoc k v bs in
    let e1 = decode_size-encode_size (length k) (encode_size (length v) ++ (k ++ (v ++ bs))) a in
    let e2 = decode_size-encode_size (length v) (k ++ (v ++ bs)) b in
    let kt = take-length_append k (v ++ bs) in
    let kd = drop-length_append k (v ++ bs) in
    let vt = take-length_append v bs in
    let vd = drop-length_append v bs in
    rw (s1, s2, s3) (rw (e1, decode_pairs) (rw (e2, decode_pairs) (rw (kt, kd, vt, vd) refl)))

decode_pairs-encode_all :
    (ps : List Pair) (f : ℕ)
    → All (λ p. (length p.0 < 2 ^ 31) × (length p.1 < 2 ^ 31)) ps
    → length ps < f
    → decode_pairs f (encode_all ps) ≡ some ps
unfolding encode_all
decode_pairs-encode_all ps zero h l = absurd (omega arith)
decode_pairs-encode_all [] (suc f) h l = unfold decode_pairs decode_size in refl
decode_pairs-encode_all ((k, v) ∷ ps) (suc f) ((a, b), h) l =
    decode_first f k v (encode_all ps) a b
    ∙ ap (λ r. with_pair (k, v) r) (decode_pairs-encode_all ps f h (omega arith))

encode_all-cons :
    (b : Bytes) (p : Pair) (ps : List Pair)
    → (b ++ encode_pair p) ++ encode_all ps ≡ b ++ encode_all (p ∷ ps)
unfolding encode_all
encode_all-cons b p ps = append_assoc b (encode_pair p) (encode_all ps)

-- What goes out holds, up to the record that closes the stream, the bytes `bs`.
record Sends (t : ℕ) (o : Option Bytes) (bs : Bytes) : Type 0 where
  out : Bytes
  sent_is : o ≡ some out
  fuel : ℕ
  holds : (rest : Bytes) → stream_contents fuel t (out ++ rest) ≡ some (bs, rest)

module _ (t id : ℕ) (n : t ≢ end_request) where
  Sends-flushed :
      (pending bs : Bytes) (o : Option Bytes)
      → Sends t o bs
      → Sends t (with_flushed (stream_write t id pending) o) (pending ++ bs)
  Sends-flushed pending bs o s = rw s.sent_is (record {
    out = stream_write t id pending ++ s.out;
    sent_is = refl;
    fuel = length pending + s.fuel;
    holds = λ rest.
        rw (append_assoc (stream_write t id pending) s.out rest)
          (stream_contents-write t id n s.fuel pending (s.out ++ rest) bs rest (s.holds rest));
  })

  Sends-kept : (bs : Bytes) (o : Option Bytes) → Sends t o bs → Sends t (with_flushed [] o) bs
  Sends-kept bs o s =
      rw s.sent_is (record { out = s.out; sent_is = refl; fuel = s.fuel; holds = s.holds })

  Sends-close :
      (pending : Bytes) → Sends t (some (stream_write t id pending ++ stream_close t id)) pending
  Sends-close pending = record {
    out = stream_write t id pending ++ stream_close t id;
    sent_is = refl;
    fuel = length pending + 1;
    holds = λ rest. rw (append_assoc (stream_write t id pending) (stream_close t id) rest) (
        stream_contents-write t id n 1 pending (stream_close t id ++ rest) [] rest
          (stream_contents-close t id n 0 rest)
        ∙ ap (λ r. some (r, rest)) (append-nil pending));
  }

  write_pairs_from-Sends :
      (nn : ℕ) (pending : Bytes) (pairs : List Pair)
      → All Fits pairs
      → Sends t (write_pairs_from t id nn pending pairs) (pending ++ encode_all (map fitted pairs))
  unfolding write_pairs_from encode_all
  write_pairs_from-Sends nn pending [] h = rw (append-nil pending) (Sends-close pending)
  write_pairs_from-Sends nn pending ((k, v) ∷ pairs) (h, hs) =
      let e = encode_pair (fitted (k, v)) in
      rw (fit_value-eq k v h, write_pairs_from)
        (elim (Bool-cases (ltb max_write (nn + length e))) [
          | inl f ↦ rw f (
              Sends-flushed pending (e ++ encode_all (map fitted pairs)) _
                (write_pairs_from-Sends (length e) e pairs hs))
          | inr f ↦ rw f (
              rw (← append_assoc pending e (encode_all (map fitted pairs)))
                (Sends-kept _ _ (write_pairs_from-Sends (nn + length e) (pending ++ e) pairs hs)))
        ])

fitted-short :
    (pairs : List Pair)
    → All Fits pairs
    → All (λ p. (length p.0 < 2 ^ 31) × (length p.1 < 2 ^ 31)) (map fitted pairs)
fitted-short [] h = tt
fitted-short ((k, v) ∷ pairs) (h, hs) = (
  (omega arith, omega (arith, length-take-le {0} (max_write - 8 - length k) v)),
  fitted-short pairs hs,
)

-- What `writePairs` sends of pairs whose keys fit a record is a stream of the given type, up to its closing
-- record; from its contents the pairs are read back in order, each with as much of its value as fits.
pub write_pairs-decode :
    (t id : ℕ) (pairs : List Pair) (rest : Bytes)
    → t ≢ end_request
    → All Fits pairs
    → (out bs : Bytes) × (fuel : ℕ) × (write_pairs t id pairs ≡ some out)
      × (stream_contents fuel t (out ++ rest) ≡ some (bs, rest))
      × (decode_pairs (suc (length pairs)) bs ≡ some (map fitted pairs))
unfolding write_pairs
write_pairs-decode t id pairs rest n h =
    let s = write_pairs_from-Sends t id n 0 [] pairs h in
    (
      s.out,
      encode_all (map fitted pairs),
      s.fuel,
      s.sent_is,
      s.holds rest,
      decode_pairs-encode_all (map fitted pairs) (suc (length pairs)) (fitted-short pairs h)
          (omega (arith, length-map fitted pairs)),
    )
