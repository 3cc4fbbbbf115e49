-- ===== src/Mitm/Defs.antt =====
-- `parseRawClientHello` and `clientHelloConn.Read` of caddyhttp/httpserver/mitm.go. A function that
-- returns early returns what it has of the information; `none` is a panic.
use iotacaddy.Prelude.{
  ℕ, zero, suc, ◌+◌, ◌*◌, ◌/◌, ◌%◌, Bool, true, not, ◌||◌, Option, none, some, List, [], ◌∷◌, ◌++◌,
  if◌then◌else◌, ltb, ◌==◌, length, get_elem?, take, drop,
}
use iotacaddy.Mitm.Wire.{Bytes, ◌>>=◌, u16_at, from, second_to}

-- `rawHelloInfo`; its flags for unknown fields are never set here.
pub record RawHello : Type 0 where
  pub version : ℕ
  pub cipher_suites : List ℕ
  pub extensions : List ℕ
  pub compression_methods : List ℕ
  pub curves : List ℕ
  pub points : List ℕ

abbrev pub no_info : RawHello
no_info = record {
  version = 0;
  cipher_suites = [];
  extensions = [];
  compression_methods = [];
  curves = [];
  points = [];
}

abbrev pub supported_curves : ℕ
supported_curves = 10

abbrev pub supported_points : ℕ
supported_points = 11

-- The loop over the cipher suites, from the index `i` on.
unfoldable pub read_suites : ℕ → ℕ → Bytes → Option (List ℕ)
read_suites zero i bs = some []
read_suites (suc n) i bs = do
  c ← u16_at bs (2 + 2 * i)
  cs ← read_suites n (suc i) bs
  some (c ∷ cs)

-- The loop over the curves, which moves the slice on.
unfoldable pub read_curves : ℕ → Bytes → Option (List ℕ)
read_curves zero d = some []
read_curves (suc n) d = do c ← u16_at d 0; d' ← from 2 d; cs ← read_curves n d'; some (c ∷ cs)

-- A round of the loop over the extensions: it returns, or goes on with what is left.
pub data Round : Type 0 where
  stop : RawHello → Round
  go : RawHello → Bytes → Round

unfoldable pub go_on : ℕ → RawHello → Bytes → Option Round
go_on n info bs = do bs' ← from n bs; some (go info bs')

unfoldable pub curves_extension : ℕ → RawHello → Bytes → Option Round
curves_extension n info bs = if ltb n 2 then some (stop info) else do
  l ← u16_at bs 0
  if l % 2 == 1 || not (n == l + 2)
      then some (stop info)
      else do d ← from 2 bs; cs ← read_curves (l / 2) d; go_on n (record info { curves = cs }) bs

unfoldable pub points_extension : ℕ → RawHello → Bytes → Option Round
points_extension n info bs = if ltb n 1 then some (stop info) else do
  l ← get_elem? bs 0
  if not (n == l + 1)
      then some (stop info)
      else do d ← from 1 bs; go_on n (record info { points = take l d }) bs

unfoldable pub extension_body : RawHello → ℕ → ℕ → Bytes → Option Round
extension_body info extension n bs =
    let info' = record info { extensions = info.extensions ++ (extension ∷ []) } in
    if ltb (length bs) n
    then some (stop info)
    else if extension == supported_curves
    then curves_extension n info' bs
    else if extension == supported_points
    then points_extension n info' bs
    else go_on n info' bs

unfoldable pub extension_round : RawHello → Bytes → Option Round
extension_round info bs = if ltb (length bs) 4 then some (stop info) else do
  extension ← u16_at bs 0
  n ← u16_at bs 2
  bs' ← from 4 bs
  extension_body info extension n bs'

-- The loop itself; `none` is also the end of the fuel.
unfoldable pub parse_extensions_from : ℕ → RawHello → Bytes → Option RawHello
parse_extensions_from f info [] = some info
parse_extensions_from zero info (b ∷ bs) = none
parse_extensions_from (suc f) info (b ∷ bs) = elim (extension_round info (b ∷ bs)) [
  | none ↦ none
  | some (stop info') ↦ some info'
  | some (go info' bs') ↦ parse_extensions_from f info' bs'
]

-- A round takes four bytes at least, so there are no more rounds than bytes.
unfoldable pub parse_extensions : RawHello → Bytes → Option RawHello
parse_extensions info bs = if ltb (length bs) 2 then some info else do
  n ← u16_at bs 0
  bs' ← from 2 bs
  if n == length bs' then parse_extensions_from (length bs') info bs' else some info

unfoldable pub parse_compression : RawHello → Bytes → Option RawHello
parse_compression info bs = if ltb (length bs) 1 then some info else do
  n ← get_elem? bs 0
  if ltb (length bs) (1 + n) then some info else do
    methods ← second_to n bs
    bs' ← from (1 + n) bs
    parse_extensions (record info { compression_methods = methods }) bs'

unfoldable pub parse_suites : RawHello → Bytes → Option RawHello
parse_suites info bs = if ltb (length bs) 2 then some info else do
  n ← u16_at bs 0
  if n % 2 == 1 || ltb (length bs) (2 + n) then some info else do
    suites ← read_suites (n / 2) 0 bs
    bs' ← from (2 + n) bs
    parse_compression (record info { cipher_suites = suites }) bs'

unfoldable pub parse_raw_client_hello : Bytes → Option RawHello
parse_raw_client_hello bs = if ltb (length bs) 42 then some no_info else do
  version ← u16_at bs 4
  session ← get_elem? bs 38
  let info = record no_info { version = version }
  if ltb 32 session || ltb (length bs) (39 + session)
      then some info
      else do bs' ← from (39 + session) bs; parse_suites info bs'

-- `clientHelloConn`, with the information that the listener keeps for its connection. `none` for
-- the latter is that there is none.
pub record HelloConn : Type 0 where
  pub read_hello : Bool
  pub buf : Bytes
  pub info : Option RawHello

-- `Read` on what the connection gives: the bytes, and whether there is an error. The bytes and
-- the error are handed on as they are. `none` is a panic.
unfoldable pub take_hello : HelloConn → Option HelloConn
take_hello c = do
  hi ← get_elem? c.buf 3
  lo ← get_elem? c.buf 4
  let n = hi * 256 + lo
  let rest = drop 5 c.buf
  if ltb (length rest) n then some (record c { buf = rest }) else do
    parsed ← parse_raw_client_hello (take n rest)
    some (record c { buf = drop n rest; info = some parsed; read_hello = true })

unfoldable pub read : HelloConn → Bytes → Bool → Option HelloConn
read c bs failed =
    let c' = record c { buf = c.buf ++ bs } in
    if c.read_hello
    then some c
    else if failed || ltb (length c'.buf) 5
    then some c'
    else take_hello c'
