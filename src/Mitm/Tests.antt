-- ===== src/Mitm/Tests.antt =====
-- The detection of interception at concrete hellos and requests, and its theorems there.
use iotacaddy.Prelude.{
  true, false, none, some, [], ◌∷◌, ◌++◌, ◌≡◌, ◌↔◌, refl, arith, codes, Text, text_eq, replicate,
}
use iotacaddy.EnvVars.Defs.{has_prefix, index, replace_from}
use iotacaddy.Conditions.Defs.{contains}
use iotacaddy.Mitm.Wire.{Returns}
use iotacaddy.Mitm.Defs.{RawHello, no_info, parse_raw_client_hello}
use iotacaddy.Mitm.Looks.{
  seek, in_order, assert_presence_and_ordering, member, same_from, more_curves, looks_like_firefox,
  advertises_heartbeat_support,
}
use iotacaddy.Mitm.Handler.{Floats, Request, is_tor_version, get_version, assess, serve_http}
use iotacaddy.Mitm.Bounds.{parse_raw_client_hello-Returns}
use iotacaddy.Mitm.Order.{InOrderFrom, assert_presence_and_ordering-InOrderFrom}
use iotacaddy.Mitm.Panics.{TestsFirefox, IsShort, serve_http-none}
use iotacaddy.Mitm.Extensions.{curves_extension_of, points_extension_of, other_extension}
use iotacaddy.Mitm.RoundTrip.{Hello, IsHello, encode_hello, raw_info, parse_raw_client_hello-encode}
use iotacaddy.Mitm.Conn.{read_all, new_conn, read_all-encode}

order_kept : assert_presence_and_ordering (1 ∷ 3 ∷ []) (1 ∷ 2 ∷ 3 ∷ []) true ≡ true
unfolding assert_presence_and_ordering in_order seek
order_kept = refl

order_broken : assert_presence_and_ordering (3 ∷ 1 ∷ []) (1 ∷ 2 ∷ 3 ∷ []) true ≡ false
unfolding assert_presence_and_ordering in_order seek
order_broken = refl

repeated_item : assert_presence_and_ordering (1 ∷ 1 ∷ []) (1 ∷ 2 ∷ []) true ≡ true
unfolding assert_presence_and_ordering in_order seek
repeated_item = refl

-- A hello with two cipher suites, one compression method and three extensions.
abbrev hello : Hello
hello = record {
  head = 1 ∷ 0 ∷ 0 ∷ 65 ∷ [];
  version = 771;
  random = replicate 32 7;
  session = [];
  suites = 4865 ∷ 49195 ∷ [];
  methods = 0 ∷ [];
  extensions =
      other_extension 23 []
      ∷ curves_extension_of (29 ∷ 23 ∷ [])
      ∷ points_extension_of (0 ∷ [])
      ∷ [];
}

hello-IsHello : IsHello hello
hello-IsHello = record {
  head_is = refl;
  random_is = refl;
  session_le = omega arith;
  suites_lt = omega arith;
  methods_lt = omega arith;
  extensions_lt = omega arith;
  extensions_are = ((omega arith, omega arith, refl, refl), (omega arith, (omega arith, tt)));
}

parse_raw_client_hello-encode_example :
    parse_raw_client_hello (encode_hello hello)
    ≡ some (record {
      version = 771;
      cipher_suites = 4865 ∷ 49195 ∷ [];
      extensions = 23 ∷ 10 ∷ 11 ∷ [];
      compression_methods = 0 ∷ [];
      curves = 29 ∷ 23 ∷ [];
      points = 0 ∷ [];
    })
parse_raw_client_hello-encode_example = parse_raw_client_hello-encode hello hello-IsHello

-- The cipher suites of this hello are longer than what there is of them.
parse_raw_client_hello-Returns_example :
    Returns (parse_raw_client_hello (replicate 38 3 ++ (0 ∷ 0 ∷ 8 ∷ 1 ∷ 1 ∷ [])))
parse_raw_client_hello-Returns_example =
    parse_raw_client_hello-Returns (replicate 38 3 ++ (0 ∷ 0 ∷ 8 ∷ 1 ∷ 1 ∷ []))

assert_presence_and_ordering-InOrderFrom_example :
    ((assert_presence_and_ordering (1 ∷ 3 ∷ []) (1 ∷ 2 ∷ 3 ∷ []) true ≡ true)
      ↔ InOrderFrom 0 (1 ∷ 3 ∷ []) (1 ∷ 2 ∷ 3 ∷ []))
    × ((assert_presence_and_ordering (1 ∷ 3 ∷ []) (1 ∷ 2 ∷ 3 ∷ []) false ≡ true)
        ↔ InOrderFrom 0 (1 ∷ 2 ∷ 3 ∷ []) (1 ∷ 3 ∷ []))
assert_presence_and_ordering-InOrderFrom_example =
    assert_presence_and_ordering-InOrderFrom (1 ∷ 3 ∷ []) (1 ∷ 2 ∷ 3 ∷ [])

-- Versions as texts, in place of floating-point numbers.
abbrev floats : Floats Text
floats = record {
  parse_float = λ s. some s;
  minus_one = [];
  tor_45 = codes "45.0";
  tor_52 = codes "52.0";
  same = text_eq;
}

abbrev firefox : Request
firefox = record {
  remote_addr = codes "a";
  user_agent = codes "Firefox/70.0";
  blue_coat_via = [];
  fcckv2 = [];
}

version_read : get_version floats (codes "x Firefox/4-5.0.1 y") (codes "Firefox") ≡ codes "45.01"
unfolding get_version index has_prefix replace_from
version_read = refl

abbrev five : RawHello
five = record no_info {
  extensions = 23 ∷ 65281 ∷ 10 ∷ 11 ∷ 35 ∷ 16 ∷ 5 ∷ 13 ∷ [];
  curves = 29 ∷ 23 ∷ 24 ∷ 25 ∷ 256 ∷ [];
}

serve_http-none_example :
    (serve_http floats (some (λ a. some five)) false firefox ≡ none)
    ↔ (TestsFirefox floats firefox five × IsShort five)
serve_http-none_example = serve_http-none floats (λ a. some five) false firefox

panics : serve_http floats (some (λ a. some five)) false firefox ≡ none
unfolding serve_http assess text_eq advertises_heartbeat_support member contains has_prefix
    is_tor_version looks_like_firefox assert_presence_and_ordering in_order seek same_from
    more_curves
panics = refl

read_all-encode_example :
    read_all new_conn ((22 ∷ 3 ∷ []) ∷ (1 ∷ 0 ∷ 69 ∷ (encode_hello hello ++ (9 ∷ []))) ∷ [])
    ≡ some (record { read_hello = true; buf = 9 ∷ []; info = some (raw_info hello) })
unfolding encode_hello
read_all-encode_example =
    read_all-encode hello ((22 ∷ 3 ∷ []) ∷ []) (1 ∷ 0 ∷ 69 ∷ (encode_hello hello ++ (9 ∷ [])))
      (9 ∷ []) hello-IsHello (omega arith) (omega arith) refl
