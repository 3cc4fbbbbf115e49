-- ===== src/Mitm/Handler.antt =====
-- The handler of caddyhttp/httpserver/mitm.go, on the hello of a client and a request.
use iotacaddy.Prelude.{
  ℕ, ◌+◌, Bool, not, ◌&&◌, ◌||◌, Option, none, some, [], ◌∷◌, ◌++◌, if◌then◌else◌, Text, codes,
  text_eq, length, take, drop,
}
use iotacaddy.EnvVars.Defs.{index, replace, slice}
use iotacaddy.Conditions.Defs.{contains}
use iotacaddy.Mitm.Wire.{◌>>=◌}
use iotacaddy.Mitm.Defs.{RawHello, no_info}
use iotacaddy.Mitm.Looks.{
  advertises_heartbeat_support, looks_like_firefox, looks_like_chrome, looks_like_edge,
  looks_like_safari, looks_like_tor,
}

-- `strconv.ParseFloat` with the numbers and the test that the code uses.
pub record Floats (F : Type 0) : Type 0 where
  pub parse_float : Text → Option F
  pub minus_one : F
  pub tor_45 : F
  pub tor_52 : F
  pub same : F → F → Bool

abbrev pub dots_behind : Text → Text
dots_behind s = elim (index s (b'.' ∷ [])) [
  | none ↦ s
  | some i ↦ take (i + 1) s ++ replace (drop (i + 1) s) (b'.' ∷ []) []
]

-- The end of the version in the user agent `ua`.
abbrev pub version_end : Text → ℕ → ℕ
version_end ua start = elim (index (drop start ua) (b' ' ∷ [])) [
  | none ↦ length ua
  | some e ↦ e + start
]

unfoldable pub get_version : {F : Type 0} → Floats F → Text → Text → F
get_version fl ua name = elim (index ua (name ++ (b'/' ∷ []))) [
  | none ↦ fl.minus_one
  | some i ↦
      let start = i + length (name ++ (b'/' ∷ [])) in
      let version = replace (slice ua start (version_end ua start)) (b'-' ∷ []) [] in
      elim (fl.parse_float (dots_behind version)) [ none ↦ fl.minus_one | some v ↦ v ]
]

-- What the handler reads of a request.
pub record Request : Type 0 where
  pub remote_addr : Text
  pub user_agent : Text
  pub blue_coat_via : Text
  pub fcckv2 : Text

-- What it reports to the telemetry, which is also the value in the context of the request if the
-- request was checked.
pub data Verdict : Type 0 where
  likely unlikely unknown : Verdict

abbrev pub verdict : Bool → Verdict
verdict mitm = if mitm then likely else unlikely

abbrev pub checked : Option Bool → Option Verdict
checked none = none
checked (some looks) = some (verdict (not looks))

unfoldable pub is_tor_version : {F : Type 0} → Floats F → Text → Bool
is_tor_version fl ua =
    contains ua (codes "Windows")
    && (fl.same (get_version fl ua (codes "Firefox")) fl.tor_45
        || fl.same (get_version fl ua (codes "Firefox")) fl.tor_52)

abbrev pub is_marked : Request → RawHello → Bool
is_marked r info =
    not (text_eq r.blue_coat_via [])
    || (not (text_eq r.fcckv2 []) || advertises_heartbeat_support info)

abbrev pub says_edge : Text → Bool
says_edge ua =
    contains ua (codes "Edge") || (contains ua (codes "MSIE") || contains ua (codes "Trident"))

-- The chain of tests of `tlsHandler.ServeHTTP`; `none` is a panic.
unfoldable pub assess : {F : Type 0} → Floats F → Request → RawHello → Option Verdict
assess fl r info =
    let ua = r.user_agent in
    if is_marked r info
    then some likely
    else if says_edge ua
    then some (verdict (not (looks_like_edge info)))
    else if contains ua (codes "Chrome")
    then some (verdict (not (looks_like_chrome info)))
    else if contains ua (codes "CriOS")
    then some (verdict (not (looks_like_chrome info) && not (looks_like_safari info)))
    else if contains ua (codes "Firefox")
    then (if is_tor_version fl ua
        then checked (looks_like_tor info)
        else checked (looks_like_firefox info))
    else if contains ua (codes "Safari")
    then some (verdict (not (looks_like_safari info)))
    else some unknown

-- What becomes of a request: the next handler serves it, with a verdict if there is one, or the
-- connection is closed.
pub data Outcome : Type 0 where
  next_handler : Option Verdict → Outcome
  closed : Outcome

abbrev pub outcome : Bool → Verdict → Outcome
outcome close likely = if close then closed else next_handler (some likely)
outcome close unlikely = next_handler (some unlikely)
outcome close unknown = next_handler (some unknown)

-- The information of the listener: a function of the remote address, which has the zero value for
-- one that is not there; `none` is that there is no listener.
abbrev pub HelloInfos : Type 0
HelloInfos = Option (Text → Option RawHello)

abbrev pub info_of : (Text → Option RawHello) → Text → RawHello
info_of infos addr = elim (infos addr) [ none ↦ no_info | some info ↦ info ]

unfoldable pub serve_http : {F : Type 0} → Floats F → HelloInfos → Bool → Request → Option Outcome
serve_http fl none close r = some (next_handler none)
serve_http fl (some infos) close r = do
  v ← assess fl r (info_of infos r.remote_addr)
  some (outcome close v)
