-- ===== src/Mitm/Looks.antt =====
-- The heuristics of caddyhttp/httpserver/mitm.go on the hello of a client. The
-- numbers of cipher suites that Go's crypto/tls names are those that the comments of the code give.
use iotacaddy.Prelude.{
  ℕ, suc, Bool, true, false, not, ◌||◌, Option, none, some, List, [], ◌∷◌, if◌then◌else◌, ltb, ◌==◌,
  length, get_elem?,
}
use iotacaddy.Mitm.Wire.{◌>>=◌}
use iotacaddy.Mitm.Defs.{RawHello, supported_curves, supported_points}

-- The inner loop of `assertPresenceAndOrdering`: the list is the superset from the index `j` on.
unfoldable pub seek : ℕ → List ℕ → List ℕ
seek item [] = []
seek item (x ∷ xs) = if x == item then x ∷ xs else seek item xs

-- Its outer loop.
unfoldable pub in_order : List ℕ → List ℕ → Bool
in_order [] superset = true
in_order (item ∷ subset) superset = elim (seek item superset) [
  | [] ↦ false
  | x ∷ rest ↦ in_order subset (x ∷ rest)
]

unfoldable pub assert_presence_and_ordering : List ℕ → List ℕ → Bool → Bool
assert_presence_and_ordering required candidates required_is_subset =
    if required_is_subset then in_order required candidates else in_order candidates required

unfoldable pub member : ℕ → List ℕ → Bool
member x [] = false
member x (y ∷ ys) = y == x || member x ys

-- The keys of `greaseCiphers`.
abbrev pub grease_ciphers : List ℕ
grease_ciphers =
    0x0A0A ∷ 0x1A1A ∷ 0x2A2A ∷ 0x3A3A ∷ 0x4A4A ∷ 0x5A5A ∷ 0x6A6A ∷ 0x7A7A ∷ 0x8A8A ∷ 0x9A9A ∷ 0xAAAA
    ∷ 0xBABA ∷ 0xCACA ∷ 0xDADA ∷ 0xEAEA ∷ 0xFAFA ∷ []

-- Whether a list has a member of another.
unfoldable pub any_member : List ℕ → List ℕ → Bool
any_member set [] = false
any_member set (x ∷ xs) = if member x set then true else any_member set xs

abbrev pub has_grease_ciphers : List ℕ → Bool
has_grease_ciphers = any_member grease_ciphers

abbrev pub heartbeat : ℕ
heartbeat = 15

abbrev pub ocsp_status_request : ℕ
ocsp_status_request = 5

abbrev pub scsv_renegotiation : ℕ
scsv_renegotiation = 0xff

unfoldable pub advertises_heartbeat_support : RawHello → Bool
advertises_heartbeat_support info = member heartbeat info.extensions

-- A loop that compares the items of a list from the index `i` on with expected ones; `none` is an
-- index out of range.
unfoldable pub same_from : ℕ → List ℕ → List ℕ → Option Bool
same_from i xs [] = some true
same_from i xs (e ∷ expected) = do
  x ← get_elem? xs i
  if x == e then same_from (suc i) xs expected else some false

abbrev pub firefox_extensions : List ℕ
firefox_extensions = 23 ∷ 65281 ∷ 10 ∷ 11 ∷ 35 ∷ 16 ∷ 5 ∷ 13 ∷ []

abbrev pub firefox_curves : List ℕ
firefox_curves = 29 ∷ 23 ∷ 24 ∷ 25 ∷ []

abbrev pub allowed_curves : List ℕ
allowed_curves = 256 ∷ 257 ∷ []

-- The order of the cipher suites of Firefox, which Tor shares.
abbrev pub firefox_suites : List ℕ
firefox_suites =
    0x1301 ∷ 0x1303 ∷ 0x1302 ∷ 0xc02b ∷ 0xc02f ∷ 0xcca9 ∷ 0xcca8 ∷ 0xc02c ∷ 0xc030 ∷ 0xc00a ∷ 0xc009
    ∷ 0xc013 ∷ 0xc014 ∷ 0x33 ∷ 0x39 ∷ 0x2f ∷ 0x35 ∷ 0xa ∷ []

-- The last tests of `looksLikeFirefox` and of `looksLikeTor`.
abbrev pub firefox_ciphers : RawHello → Bool
firefox_ciphers info =
    if has_grease_ciphers info.cipher_suites
    then false
    else assert_presence_and_ordering firefox_suites info.cipher_suites false

-- The additional curves at the end of the list.
unfoldable pub more_curves : List ℕ → Option Bool
more_curves curves =
    if ltb (length firefox_curves) (length curves)
    then same_from (length firefox_curves) curves allowed_curves
    else some true

unfoldable pub looks_like_firefox : RawHello → Option Bool
looks_like_firefox info =
    if not (assert_presence_and_ordering firefox_extensions info.extensions true)
    then some false
    else if ltb (length info.curves) (length firefox_curves)
    then some false
    else do
      same ← same_from 0 info.curves firefox_curves
      if not same then some false else do
        more ← more_curves info.curves
        if not more then some false else some (firefox_ciphers info)

abbrev pub chrome_exclusions : List ℕ
chrome_exclusions = 0xc024 ∷ 0xc023 ∷ 0xc028 ∷ 0xc027 ∷ 0x3d ∷ 0x3c ∷ 0x33 ∷ 0x39 ∷ []

unfoldable pub looks_like_chrome : RawHello → Bool
looks_like_chrome info =
    if any_member chrome_exclusions info.cipher_suites
    then false
    else if member 25 info.curves
    then false
    else if not (has_grease_ciphers info.cipher_suites)
    then false
    else true

-- The first loop of `looksLikeEdge`: behind a request of the OCSP status come the curves and the
-- points.
unfoldable pub ocsp_order : List ℕ → Bool
ocsp_order [] = true
ocsp_order (x ∷ xs) =
    let rest = ocsp_order xs in
    if x == ocsp_status_request
    then elim xs [
      | [] ↦ false
      | y ∷ ys ↦ elim ys [
        | [] ↦ false
        | z ∷ zs ↦
            if not (y == supported_curves) || not (z == supported_points) then false else rest
      ]
    ]
    else rest

unfoldable pub looks_like_edge : RawHello → Bool
looks_like_edge info =
    if not (ocsp_order info.extensions)
    then false
    else if any_member (scsv_renegotiation ∷ 0x4 ∷ 0x5 ∷ []) info.cipher_suites
    then false
    else if has_grease_ciphers info.cipher_suites
    then false
    else true

abbrev pub safari_extensions : List ℕ
safari_extensions = 10 ∷ 11 ∷ 13 ∷ 13172 ∷ 16 ∷ 5 ∷ 18 ∷ 23 ∷ []

abbrev pub safari_ios11_extensions : List ℕ
safari_ios11_extensions = 65281 ∷ 0 ∷ 23 ∷ 13 ∷ 5 ∷ 13172 ∷ 18 ∷ 16 ∷ 11 ∷ 10 ∷ []

abbrev pub safari_suites : List ℕ
safari_suites =
    0xc02c ∷ 0xc02b ∷ 0xc024 ∷ 0xc023 ∷ 0xc00a ∷ 0xc009 ∷ 0xc030 ∷ 0xc02f ∷ 0xc028 ∷ 0xc027 ∷ 0xc014
    ∷ 0xc013 ∷ 0x9d ∷ 0x9c ∷ 0x3d ∷ 0x3c ∷ 0x35 ∷ 0x2f ∷ []

-- The extensions of `looksLikeSafari`, with the test of the first cipher suite that hangs on them.
unfoldable pub safari_head : RawHello → Bool
safari_head info =
    if not (assert_presence_and_ordering safari_extensions info.extensions true)
    then assert_presence_and_ordering safari_ios11_extensions info.extensions true
    else elim info.cipher_suites [ [] ↦ false | c ∷ cs ↦ c == scsv_renegotiation ]

unfoldable pub looks_like_safari : RawHello → Bool
looks_like_safari info =
    if not (safari_head info)
    then false
    else if has_grease_ciphers info.cipher_suites
    then false
    else assert_presence_and_ordering safari_suites info.cipher_suites true

abbrev pub tor_extensions : List ℕ
tor_extensions = 10 ∷ 11 ∷ 16 ∷ 5 ∷ 13 ∷ []

abbrev pub tor_curves : List ℕ
tor_curves = 23 ∷ 24 ∷ 25 ∷ []

abbrev pub session_ticket : ℕ
session_ticket = 35

-- The curves without the optional one in front; `none` if another stands there.
unfoldable pub info_curves : List ℕ → Option (List ℕ)
info_curves (c ∷ cs) =
    if length (c ∷ cs) == 4 then if not (c == 29) then none else some cs else some (c ∷ cs)
info_curves [] = some []

unfoldable pub looks_like_tor : RawHello → Option Bool
looks_like_tor info =
    if not (assert_presence_and_ordering tor_extensions info.extensions true)
    then some false
    else if member session_ticket info.extensions
    then some false
    else elim (info_curves info.curves) [
      | none ↦ some false
      | some curves ↦ if ltb (length curves) (length tor_curves) then some false else do
        same ← same_from 0 curves tor_curves
        if not same then some false else some (firefox_ciphers info)
    ]
