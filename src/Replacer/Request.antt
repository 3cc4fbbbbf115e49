-- ===== src/Replacer/Request.antt =====
-- What caddyhttp/httpserver/replacer.go reads of a request and its response, and the writer that
-- keeps the beginning of a body. A body is a list of bytes, a duration a number of nanoseconds.
use iotacaddy.Prelude.{
  ℕ, ◌+◌, ◌-◌, ◌*◌, ◌%◌, Bool, false, ◌&&◌, ◌||◌, Option, List, [], ◌∷◌, ◌++◌, ltb, leb, ◌==◌,
  if◌then◌else◌, Text, codes, text_eq, length, take,
}
use iotacaddy.Conditions.Defs.{contains}

-- `limitWriter`.
pub record LimitWriter : Type 0 where
  pub written : Text
  pub remain : ℕ

abbrev pub new_limit_writer : ℕ → LimitWriter
new_limit_writer max = record { written = []; remain = max }

unfoldable pub write : LimitWriter → Text → LimitWriter
write w p =
    if w.remain == 0
    then w
    else (let q = if ltb w.remain (length p) then take w.remain p else p in
        record w { written = w.written ++ q; remain = w.remain - length q })

unfoldable pub write_all : LimitWriter → List Text → LimitWriter
write_all w [] = w
write_all w (p ∷ ps) = write_all (write w p) ps

abbrev pub max_log_body_size : ℕ
max_log_body_size = 100 * 1024

-- A certificate, as the packages crypto/x509 and encoding/pem print it.
pub record Cert : Type 0 where
  pub escaped_pem : Text
  pub fingerprint : Text
  pub issuer : Text
  pub raw : Text
  pub subject : Text
  pub serial : Text
  pub not_after : Text
  pub days_left : Text
  pub not_before : Text

pub record Tls : Type 0 where
  pub protocol : Option Text
  pub cipher : Option Text
  pub peer : Option Cert

pub record Url : Type 0 where
  pub path : Text
  pub raw_query : Text
  pub fragment : Text
  pub request_uri : Text

abbrev pub Header : Type 0
Header = List (Text × List Text)

-- `http.Request` with the values of its context. The chunks of its body are those read so far and
-- the rest, with whether the rest exceeds the limit on bodies.
pub record Request : Type 0 where
  pub method : Text
  pub host : Text
  pub remote_addr : Text
  pub proto : Text
  pub url : Url
  pub original_url : Url
  pub request_id : Text
  pub header : Header
  pub cookie : Text → Option Text
  pub query : Text → Text
  pub tls : Option Tls
  pub mitm : Option Bool
  pub dump : Option Text
  pub chunks : List Text
  pub too_large : Bool

pub record Recorder : Type 0 where
  pub status : ℕ
  pub size : ℕ
  pub header : Header
  pub elapsed : ℕ

-- The host's name, the formatted time, and functions of the standard library.
pub record Outside : Type 0 where
  pub hostname : Option Text
  pub when : Text
  pub when_iso_local : Text
  pub when_iso : Text
  pub when_unix : Text
  pub now_nano : ℕ
  pub print_duration : ℕ → Text
  pub equal_fold : Text → Text → Bool
  pub query_escape : Text → Text

pub record Replacer : Type 0 where
  pub custom : List (Text × Text)
  pub empty_value : Text
  pub recorder : Option Recorder
  pub request : Request

-- `canLogRequest`.
unfoldable pub values_of : Text → Header → List Text
values_of k [] = []
values_of k ((j, vs) ∷ h) = if text_eq j k then vs else values_of k h

unfoldable pub some_loggable : List Text → Bool
some_loggable [] = false
some_loggable (t ∷ ts) =
    contains t (codes "application/json")
    || (contains t (codes "application/xml") || some_loggable ts)

unfoldable pub can_log_request : Request → Bool
can_log_request r =
    (text_eq r.method (codes "POST") || text_eq r.method (codes "PUT"))
    && some_loggable (values_of (codes "Content-Type") r.header)

-- `round`, of a duration that is not negative, as `roundDuration` calls it.
unfoldable pub round : ℕ → ℕ → ℕ
round d r = if r == 0 then d else if ltb (d % r + d % r) r then d - d % r else d + r - d % r

abbrev pub microsecond : ℕ
microsecond = 1000

abbrev pub millisecond : ℕ
millisecond = 1000000

unfoldable pub round_duration : ℕ → ℕ
round_duration d =
    if leb millisecond d
    then round d millisecond
    else if leb microsecond d
    then round d microsecond
    else d

-- `requestReplacer`.
unfoldable pub one_line : Text → Text
one_line [] = []
one_line (c ∷ s) =
    let rest = one_line s in
    if c == 13 then b'\\' ∷ b'r' ∷ rest else if c == 10 then b'\\' ∷ b'n' ∷ rest else c ∷ rest
