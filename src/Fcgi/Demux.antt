-- ===== src/Fcgi/Demux.antt =====
-- The answer of a FastCGI server, as `streamReader` of caddyhttp/fastcgi/fcgiclient.go takes it apart.
use iotacaddy.Prelude.{
  ℕ, zero, suc, ◌+◌, ◌-◌, ◌%◌, ◌^◌, ◌≤◌, ◌<◌, Option, none, some, List, [], ◌∷◌, ◌++◌, ◌≡◌, refl,
  sym, ap, ◌∙◌, append-nil, append_assoc, arith, length, take, drop, replicate, length-append,
  length-drop, take-append_drop, All,
}
use iotacaddy.Fcgi.Defs.{
  Bytes, end_request, stdout, stderr_type, write_record, Fault, end_of_request, failed, read_record,
  StreamReader, Loaded, ready, stopped, load_from, after_load, read,
}
use iotacaddy.Fcgi.Records.{read_record-write_record}

-- A record of an answer: output, or error output.
pub data Piece : Type 0 where
  out : Bytes → Piece
  error : Bytes → Piece

abbrev pub content : Piece → Bytes
content (out c) = c
content (error c) = c

-- The bytes of an answer: its records, and the record that ends the request.
unfoldable pub wire : ℕ → Bytes → List Piece → Bytes
wire id rest [] = write_record end_request id rest
wire id rest (out c ∷ ps) = write_record stdout id c ++ wire id rest ps
wire id rest (error c ∷ ps) = write_record stderr_type id c ++ wire id rest ps

abbrev pub outputs : List Piece → Bytes
outputs [] = []
outputs (out c ∷ ps) = c ++ outputs ps
outputs (error c ∷ ps) = outputs ps

abbrev pub errors : List Piece → Bytes
errors [] = []
errors (out c ∷ ps) = errors ps
errors (error c ∷ ps) = c ++ errors ps

-- Reading into slices of length `n` until an error: the bytes, the error output, the error.
abbrev Answer : Type 0
Answer = Option (Bytes × Bytes × Fault)

abbrev joined : Answer → StreamReader → Bytes → Option Fault → Answer
joined more w bs (some x) = some (bs, w.stderr, x)
joined none w bs none = none
joined (some (more, s, x)) w bs none = some (bs ++ more, s, x)

pub read_to_end : ℕ → ℕ → StreamReader → Option (Bytes × Bytes × Fault)
read_to_end zero n w = none
read_to_end (suc f) n w = let (w', bs, e) = read n w in joined (read_to_end f n w') w' bs e

-- How many calls of `Read` the pieces may take.
abbrev pub weight : List Piece → ℕ
weight [] = 1
weight (p ∷ ps) = suc (length (content p)) + weight ps

abbrev pub IsSmall : Piece → Type 0
IsSmall p = length (content p) < 2 ^ 16

module _ (id : ℕ) (last : Bytes) where
  abbrev reader : Bytes → List Piece → Bytes → StreamReader
  reader b ps s = record { buf = b; conn = wire id last ps; stderr = s }

  -- What the loop loads, by recursion on the pieces.
  abbrev Loads : List Piece → Bytes → Loaded → Type 0
  Loads [] s l = (w : StreamReader) × (l ≡ stopped w end_of_request) × (w.stderr ≡ s)
  Loads (out c ∷ ps) s l = l ≡ ready (reader c ps s)
  Loads (error c ∷ ps) s l = Loads ps (s ++ c) l

  read_end :
      read_record (write_record end_request id last)
      ≡ failed end_of_request (last ++ replicate ((8 - length last % 8) % 8) 0)
  unfolding read_record write_record
  read_end = refl

  load_from-Loads :
      (f : ℕ) (ps : List Piece) (b s : Bytes)
      → All IsSmall ps
      → length ps < f
      → Loads ps s (load_from f (reader b ps s))
  unfolding load_from wire
  load_from-Loads zero ps b s h l = absurd (omega arith)
  load_from-Loads (suc f) [] b s h l = rw (read_end, load_from) (_, refl, refl)
  load_from-Loads (suc f) (out c ∷ ps) b s (h, hs) l =
      rw (read_record-write_record stdout id c (wire id last ps) (omega arith) h, load_from) refl
  load_from-Loads (suc f) (error c ∷ ps) b s (h, hs) l =
      rw (read_record-write_record stderr_type id c (wire id last ps) (omega arith) h, load_from)
        (load_from-Loads f ps b (s ++ c) hs (omega arith))

  longer :
      (t : ℕ) (c : Bytes) (ps : List Piece)
      → length ps ≤ length (wire id last ps)
      → suc (length ps) ≤ length (write_record t id c ++ wire id last ps)
  unfolding write_record
  longer t c ps h =
      let pad : Bytes = replicate ((8 - length c % 8) % 8) 0 in
      omega (arith, length-append {0} (c ++ pad) (wire id last ps))

  length-wire : (ps : List Piece) → length ps ≤ length (wire id last ps)
  unfolding wire write_record
  length-wire [] = omega arith
  length-wire (out c ∷ ps) = longer stdout c ps (length-wire ps)
  length-wire (error c ∷ ps) = longer stderr_type c ps (length-wire ps)

  Reads : (f n : ℕ) → Bytes → List Piece → Bytes → Type 0
  Reads f n b ps s =
      read_to_end f (suc n) (reader b ps s) ≡ some (b ++ outputs ps, s ++ errors ps, end_of_request)

  abbrev finish : ℕ → ℕ → StreamReader × Bytes × Option Fault → Answer
  finish f n (w, bs, e) = joined (read_to_end f (suc n) w) w bs e

  -- The call that loads, on what the loop loads.
  after_load-Reads :
      (f n : ℕ) (ps : List Piece) (s : Bytes) (l : Loaded)
      → All IsSmall ps
      → weight ps ≤ f
      → Loads ps s l
      → ((b : Bytes) (ps' : List Piece) (s' : Bytes)
          → All IsSmall ps'
          → length b + weight ps' < f
          → Reads f n b ps' s')
      → finish f n (after_load (suc n) l) ≡ some (outputs ps, s ++ errors ps, end_of_request)
  unfolding Reads
  after_load-Reads f n [] s l h g (w, e, e') ih = rw (e, e', append-nil s) refl
  after_load-Reads f n (out c ∷ ps) s l (h, hs) g e ih =
      let rest = ih (drop (suc n) c) ps s hs (omega (arith, length-drop {0} (suc n) c)) in
      rw e (
        rw rest (
          ap (λ r. some (r, s ++ errors ps, end_of_request))
            (sym (append_assoc (take (suc n) c) (drop (suc n) c) (outputs ps))
              ∙ ap (λ r. r ++ outputs ps) (take-append_drop (suc n) c))))
  after_load-Reads f n (error c ∷ ps) s l (h, hs) g e ih =
      after_load-Reads f n ps (s ++ c) l hs (omega arith) e ih
      ∙ ap (λ r. some (outputs ps, r, end_of_request)) (append_assoc s c (errors ps))

  read_to_end-Reads :
      (f n : ℕ) (b : Bytes) (ps : List Piece) (s : Bytes)
      → All IsSmall ps
      → length b + weight ps < f
      → Reads f n b ps s
  unfolding read_to_end Reads read
  read_to_end-Reads zero n b ps s h l = absurd (omega arith)
  read_to_end-Reads (suc f) n [] ps s h l =
      after_load-Reads f n ps s (load_from (suc (length (wire id last ps))) (reader [] ps s)) h
        (omega arith) (load_from-Loads _ ps [] s h (omega (arith, length-wire ps)))
        λ b ps' s' h' l'. read_to_end-Reads f n b ps' s' h' l'
  read_to_end-Reads (suc f) n (x ∷ b) ps s h l =
      let rest = read_to_end-Reads f n (drop n b) ps s h (omega (arith, length-drop {0} n b)) in
      rw rest (
        ap (λ r. some (x ∷ r, s ++ errors ps, end_of_request))
          (sym (append_assoc (take n b) (drop n b) (outputs ps))
            ∙ ap (λ r. r ++ outputs ps) (take-append_drop n b)))

-- Reading an answer in slices of any positive length gives what its output records hold, in order
-- and with nothing of the others; the error output is kept apart, in order too; the error that
-- ends the reading is the end of the request.
pub read_to_end-wire :
    (id n : ℕ) (last s : Bytes) (ps : List Piece)
    → All IsSmall ps
    → read_to_end
        (suc (weight ps))
        (suc n)
        (record { buf = []; conn = wire id last ps; stderr = s })
      ≡ some (outputs ps, s ++ errors ps, end_of_request)
unfolding Reads
read_to_end-wire id n last s ps h =
    read_to_end-Reads id last (suc (weight ps)) n [] ps s h (omega arith)
