-- ===== src/Fcgi/Defs.antt =====
-- The FastCGI client of caddyhttp/fastcgi/fcgiclient.go, without its connection: what is written
-- is the list of the bytes that go out, and writing does not fail; what is read comes from a list.
use iotacaddy.Prelude.{
  ℕ, zero, suc, ◌+◌, ◌-◌, ◌*◌, ◌/◌, ◌%◌, ◌^◌, true, false, not, Option, none, some, List, [], ◌∷◌,
  ◌++◌, ltb, ◌==◌, if◌then◌else◌, length, take, drop, replicate,
}

abbrev pub Bytes : Type 0
Bytes = List ℕ

abbrev pub max_write : ℕ
max_write = 65500

abbrev pub begin_request : ℕ
begin_request = 1

abbrev pub end_request : ℕ
end_request = 3

abbrev pub params : ℕ
params = 4

abbrev pub stdin : ℕ
stdin = 5

abbrev pub stdout : ℕ
stdout = 6

abbrev pub stderr_type : ℕ
stderr_type = 7

abbrev pub responder : ℕ
responder = 1

-- `header`; the identifier and the length are 16 bits wide, the others 8.
pub record Header : Type 0 where
  pub version : ℕ
  pub rec_type : ℕ
  pub id : ℕ
  pub content_length : ℕ
  pub padding_length : ℕ
  pub reserved : ℕ

-- `header.init`; the padding is `-contentLength & 7`.
abbrev pub init : ℕ → ℕ → ℕ → Header
init rec_type id n = record {
  version = 1;
  rec_type = rec_type;
  id = id;
  content_length = n % 2 ^ 16;
  padding_length = (8 - n % 8) % 8;
  reserved = 0;
}

-- `binary.Write` of a header, in big endian.
abbrev pub encode_header : Header → Bytes
encode_header h =
    h.version
    ∷ h.rec_type
    ∷ (h.id / 256)
    ∷ (h.id % 256)
    ∷ (h.content_length / 256)
    ∷ (h.content_length % 256)
    ∷ h.padding_length
    ∷ h.reserved
    ∷ []

-- `writeRecord`; the padding is a slice of `pad`, which holds zeros.
unfoldable pub write_record : ℕ → ℕ → Bytes → Bytes
write_record rec_type id content =
    let h = init rec_type id (length content) in
    encode_header h ++ (content ++ replicate h.padding_length 0)

unfoldable pub write_begin_request : ℕ → ℕ → ℕ → Bytes
write_begin_request id role flags =
    write_record begin_request id (role / 256 % 256 ∷ role % 256 ∷ flags ∷ 0 ∷ 0 ∷ 0 ∷ 0 ∷ 0 ∷ [])

unfoldable pub write_end_request : ℕ → ℕ → ℕ → Bytes
write_end_request id app_status protocol_status = write_record end_request id (
    app_status / 2 ^ 24 % 256
    ∷ app_status / 2 ^ 16 % 256
    ∷ app_status / 2 ^ 8 % 256
    ∷ app_status % 256
    ∷ protocol_status
    ∷ 0
    ∷ 0
    ∷ 0
    ∷ [])

-- The errors of reading: a wrong version, the end of the request, an end of the input.
pub data Fault : Type 0 where
  bad_version end_of_request cut_off : Fault

-- What `record.read` returns, with the bytes that it leaves unread.
pub data Reading : Type 0 where
  got : Header → Bytes → Bytes → Reading
  failed : Fault → Bytes → Reading

abbrev pub read_content : Header → Bytes → Reading
read_content h rest =
    if not (h.version == 1)
    then failed bad_version rest
    else if h.rec_type == end_request
    then failed end_of_request rest
    else if ltb (length rest) (h.content_length + h.padding_length)
    then failed cut_off []
    else got h (take h.content_length rest) (drop (h.content_length + h.padding_length) rest)

unfoldable pub read_record : Bytes → Reading
read_record (v ∷ t ∷ i ∷ j ∷ c ∷ d ∷ p ∷ r ∷ rest) =
    read_content
      (record {
        version = v;
        rec_type = t;
        id = i * 256 + j;
        content_length = c * 256 + d;
        padding_length = p;
        reserved = r;
      })
      rest
read_record _ = failed cut_off []

-- The loop of `streamWriter.Write`, a record in each round, of at most `w` bytes.
unfoldable pub stream_write_from : ℕ → ℕ → ℕ → ℕ → Bytes → Bytes
stream_write_from zero w t id p = []
stream_write_from (suc f) w t id [] = []
stream_write_from (suc f) w t id (b ∷ p) =
    write_record t id (take w (b ∷ p)) ++ stream_write_from f w t id (drop w (b ∷ p))

-- A round sends a byte at least, so there are no more rounds than bytes.
unfoldable pub stream_write : ℕ → ℕ → Bytes → Bytes
stream_write t id p = stream_write_from (length p) max_write t id p

-- `streamWriter.Close`.
unfoldable pub stream_close : ℕ → ℕ → Bytes
stream_close t id = write_record t id []

-- `encodeSize`; with the highest bit set the size has four bytes.
unfoldable pub encode_size : ℕ → Bytes
encode_size n =
    if ltb 127 n
    then (let m = n % 2 ^ 31 + 2 ^ 31 in
        m / 2 ^ 24 ∷ m / 2 ^ 16 % 256 ∷ m / 2 ^ 8 % 256 ∷ m % 256 ∷ [])
    else n ∷ []

abbrev pub Pair : Type 0
Pair = Bytes × Bytes

-- A value that is too long for a record with its key is cut; a negative end of the slice panics.
unfoldable pub fit_value : Bytes → Bytes → Option Bytes
fit_value k v =
    if ltb max_write (8 + length k + length v)
    then if ltb max_write (8 + length k) then none else some (take (max_write - 8 - length k) v)
    else some v

unfoldable pub encode_pair : Pair → Bytes
encode_pair (k, v) = encode_size (length k) ++ (encode_size (length v) ++ (k ++ v))

abbrev pub with_flushed : Bytes → Option Bytes → Option Bytes
with_flushed flushed none = none
with_flushed flushed (some out) = some (flushed ++ out)

-- The loop of `writePairs` over the pairs in the order of the map's iteration: `pending` are the
-- bytes in the buffer of the `bufio.Writer`, which holds `max_write`. `none` is a panic.
unfoldable pub write_pairs_from : ℕ → ℕ → ℕ → Bytes → List Pair → Option Bytes
write_pairs_from t id nn pending [] = some (stream_write t id pending ++ stream_close t id)
write_pairs_from t id nn pending ((k, v) ∷ pairs) = elim (fit_value k v) [
  | none ↦ none
  | some v' ↦
      let e = encode_pair (k, v') in
      let full = ltb max_write (nn + length e) in
      let flushed = if full then stream_write t id pending else [] in
      with_flushed flushed (
        write_pairs_from t id (if full then length e else nn + length e)
          (if full then e else pending ++ e) pairs)
]

unfoldable pub write_pairs : ℕ → ℕ → List Pair → Option Bytes
unfolding write_pairs_from
write_pairs t id pairs = write_pairs_from t id 0 [] pairs

-- `Do`, with the body in the pieces in which the buffer hands it on; what is sent.
unfoldable pub send_body : ℕ → List Bytes → Bytes
send_body id [] = stream_close stdin id
send_body id (p ∷ pieces) = stream_write stdin id p ++ send_body id pieces

unfoldable pub send_request : ℕ → List Pair → List Bytes → Option Bytes
unfolding send_body
send_request id pairs pieces = elim (write_pairs params id pairs) [
  | none ↦ none
  | some out ↦ some (write_begin_request id responder 0 ++ (out ++ send_body id pieces))
]

-- `streamReader`, with the connection and the standard error output of its client.
pub record StreamReader : Type 0 where
  pub buf : Bytes
  pub conn : Bytes
  pub stderr : Bytes

-- The loop that loads a record that is no error output.
pub data Loaded : Type 0 where
  ready : StreamReader → Loaded
  stopped : StreamReader → Fault → Loaded

unfoldable pub load_from : ℕ → StreamReader → Loaded
load_from zero w = stopped w cut_off
load_from (suc f) w = elim (read_record w.conn) [
  | failed e rest ↦ stopped (record w { conn = rest }) e
  | got h c rest ↦ elim (h.rec_type == stderr_type) [
    | true ↦ load_from f (record w { conn = rest; stderr = w.stderr ++ c })
    | false ↦ ready (record w { conn = rest; buf = c })
  ]
]

-- The copying of the buffered bytes, at most `n`.
abbrev pub take_buffered : ℕ → StreamReader → StreamReader × Bytes × Option Fault
take_buffered n w = (record w { buf = drop n w.buf }, take n w.buf, none)

abbrev pub after_load : ℕ → Loaded → StreamReader × Bytes × Option Fault
after_load n (ready w) = take_buffered n w
after_load n (stopped w e) = (w, [], some e)

-- `streamReader.Read` into a slice of length `n`. Each record has eight bytes at least, so the
-- fuel of the loop is enough.
unfoldable pub read : ℕ → StreamReader → StreamReader × Bytes × Option Fault
read zero w = (w, [], none)
read (suc n) w = elim w.buf [
  | [] ↦ after_load (suc n) (load_from (suc (length w.conn)) w)
  | _ ∷ _ ↦ take_buffered (suc n) w
]
