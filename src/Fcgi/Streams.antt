-- ===== src/Fcgi/Streams.antt =====
-- The records of one stream of caddyhttp/fastcgi/fcgiclient.go, up to the empty record that closes it.
use iotacaddy.Prelude.{
  ℕ, zero, suc, ◌+◌, ◌^◌, ◌≤◌, ◌<◌, true, Option, none, some, [], ◌∷◌, ◌++◌, ◌≡◌, ◌≢◌, refl, sym,
  ap, ◌∙◌, append_assoc, ◌==◌, if◌then◌else◌, arith, length, take, drop, length-drop,
  length-take-le, take-append_drop,
}
use iotacaddy.Fcgi.Defs.{
  Bytes, end_request, Header, write_record, Reading, got, failed, read_record, stream_write_from,
  stream_write, stream_close,
}
use iotacaddy.Fcgi.Records.{read_record-write_record}

-- What a server reads of a stream of type `t`: the contents up to the empty record, and the
-- bytes behind it. A round takes a record; `none` is a record of another type, or a fault.
abbrev pub join_contents :
    ℕ → Option (Bytes × Bytes) → Header → Bytes → Bytes → Option (Bytes × Bytes)
join_contents t more h [] rest = if h.rec_type == t then some ([], rest) else none
join_contents t none h (c ∷ cs) rest = none
join_contents t (some (p, rest')) h (c ∷ cs) rest =
    if h.rec_type == t then some ((c ∷ cs) ++ p, rest') else none

unfoldable pub stream_contents : ℕ → ℕ → Bytes → Option (Bytes × Bytes)
stream_contents zero t bs = none
stream_contents (suc f) t bs = elim (read_record bs) [
  | failed e rest ↦ none
  | got h c rest ↦ join_contents t (stream_contents f t rest) h c rest
]

type_test : (t : ℕ) → (t == t) ≡ true
type_test t = ground arith

join_contents_mono :
    (t : ℕ) (m m' : Option (Bytes × Bytes)) (h : Header) (c rest : Bytes) (r : Bytes × Bytes)
    → ((q : Bytes × Bytes) → m ≡ some q → m' ≡ some q)
    → join_contents t m h c rest ≡ some r
    → join_contents t m' h c rest ≡ some r
join_contents_mono t m m' h [] rest r k e = e
join_contents_mono t none m' h (c ∷ cs) rest r k e = absurd (cc)
join_contents_mono t (some q) m' h (c ∷ cs) rest r k e = rw (k q refl) e

stream_contents_mono :
    (f g t : ℕ) (bs : Bytes) (r : Bytes × Bytes)
    → f ≤ g
    → stream_contents f t bs ≡ some r
    → stream_contents g t bs ≡ some r
unfolding stream_contents
stream_contents_mono zero g t bs r l e = absurd (cc)
stream_contents_mono (suc f) zero t bs r l e = absurd (omega arith)
stream_contents_mono (suc f) (suc g) t bs r l e =
    on (read_record bs) (λ rest q. stream_contents_mono f g t rest q (omega arith)) e
  where
    on :
        (o : Reading)
        → ((rest : Bytes) (q : Bytes × Bytes)
            → stream_contents f t rest ≡ some q
            → stream_contents g t rest ≡ some q)
        → (elim o [
          | failed e rest ↦ none
          | got h c rest ↦ join_contents t (stream_contents f t rest) h c rest
        ])
          ≡ some r
        → (elim o [
          | failed e rest ↦ none
          | got h c rest ↦ join_contents t (stream_contents g t rest) h c rest
        ])
          ≡ some r
    on (failed x rest) k e = absurd (cc)
    on (got h c rest) k e = join_contents_mono t _ _ h c rest r (k rest) e

module _ (t id : ℕ) (n : t ≢ end_request) where
  pub stream_contents-close :
      (f : ℕ) (rest : Bytes)
      → stream_contents (suc f) t (stream_close t id ++ rest) ≡ some ([], rest)
  unfolding stream_contents stream_close
  stream_contents-close f rest =
      rw (stream_contents, read_record-write_record t id [] rest n (omega arith), type_test t) refl

  record_first :
      (f : ℕ) (c : ℕ) (cs rest p rest' : Bytes)
      → length (c ∷ cs) < 2 ^ 16
      → stream_contents f t rest ≡ some (p, rest')
      → stream_contents (suc f) t (write_record t id (c ∷ cs) ++ rest) ≡ some ((c ∷ cs) ++ p, rest')
  unfolding stream_contents
  record_first f c cs rest p rest' l e =
      rw (stream_contents, read_record-write_record t id (c ∷ cs) rest n l, e, type_test t) refl

  -- A round takes `suc w` bytes.
  stream_contents-write_from :
      (w g f : ℕ) (p rest q rest' : Bytes)
      → suc w < 2 ^ 16
      → length p ≤ g
      → stream_contents f t rest ≡ some (q, rest')
      → stream_contents (length p + f) t (stream_write_from g (suc w) t id p ++ rest)
        ≡ some (p ++ q, rest')
  unfolding stream_write_from
  stream_contents-write_from w zero f [] rest q rest' lw l e =
      stream_contents_mono f _ t rest (q, rest') (omega arith) e
  stream_contents-write_from w zero f (b ∷ p) rest q rest' lw l e = absurd (omega arith)
  stream_contents-write_from w (suc g) f [] rest q rest' lw l e =
      stream_contents_mono f _ t rest (q, rest') (omega arith) e
  stream_contents-write_from w (suc g) f (b ∷ p) rest q rest' lw l e =
      let d = drop w p in
      let tail = stream_write_from g (suc w) t id d in
      let shorter = length-drop w p in
      let ih = stream_contents-write_from w g f d rest q rest' lw (omega arith) e in
      let first =
        record_first (length d + f) b (take w p) (tail ++ rest) (d ++ q) rest'
          (omega (arith, length-take-le w p)) ih in
      rw (append_assoc (write_record t id (b ∷ take w p)) tail rest) (
        stream_contents_mono (suc (length d + f)) _ t _ ((b ∷ p) ++ q, rest') (omega arith)
          (first
            ∙ ap (λ r. some (b ∷ r, rest'))
                (sym (append_assoc (take w p) d q) ∙ ap (λ r. r ++ q) (take-append_drop w p))))

  -- A text that is written to a stream is read back, before what the stream holds behind it.
  pub stream_contents-write :
      (f : ℕ) (p rest q rest' : Bytes)
      → stream_contents f t rest ≡ some (q, rest')
      → stream_contents (length p + f) t (stream_write t id p ++ rest) ≡ some (p ++ q, rest')
  unfolding stream_write
  stream_contents-write f p rest q rest' e =
      stream_contents-write_from 65499 (length p) f p rest q rest' (omega arith) (omega arith) e
