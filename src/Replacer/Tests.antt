-- ===== src/Replacer/Tests.antt =====
-- The replacer at a concrete request, and its theorems there.
use iotacaddy.Prelude.{false, none, some, [], ◌∷◌, ◌≡◌, refl, Text, codes, arith, text_eq, take}
use iotacaddy.EnvVars.Defs.{has_prefix, replace_from}
use iotacaddy.VHost.Defs.{split_from}
use iotacaddy.Iota.Int.{digits_from, atoi}
use iotacaddy.Telemetry.Defs.{lookup, put}
use iotacaddy.Replacer.Request.{
  new_limit_writer, write_all, Url, Request, Outside, Replacer, round, round_duration,
}
use iotacaddy.Replacer.Defs.{find_field, get_substitution, set_custom}
use iotacaddy.Replacer.Template.{
  unescape_braces, find_unescaped, next_placeholder, has_brace, replaced, replace_placeholders,
  replace_all,
}
use iotacaddy.Replacer.Body.{joined, write_all-joined}
use iotacaddy.Replacer.Values.{replace_all-Returns}
use iotacaddy.Replacer.Render.{Template, render, expand, ArePlain, replace_all-render}

abbrev url : Url
url = record { path = codes "/a/b"; raw_query = []; fragment = []; request_uri = codes "/a/b" }

abbrev request : Request
request = record {
  method = codes "GET";
  host = codes "x.org:80";
  remote_addr = codes "1.2.3.4:5";
  proto = codes "HTTP/1.1";
  url = url;
  original_url = url;
  request_id = [];
  header = (codes "Via", codes "p" ∷ codes "q" ∷ []) ∷ [];
  cookie = λ n. none;
  query = λ n. [];
  tls = none;
  mitm = none;
  dump = none;
  chunks = [];
  too_large = false;
}

abbrev outside : Outside
outside = record {
  hostname = none;
  when = [];
  when_iso_local = [];
  when_iso = [];
  when_unix = [];
  now_nano = 0;
  print_duration = λ n. [];
  equal_fold = text_eq;
  query_escape = λ t. t;
}

abbrev replacer : Replacer
replacer = record {
  custom = (codes "{a}", codes "{b}") ∷ [];
  empty_value = codes "-";
  recorder = none;
  request = request;
}

header_is_joined : get_substitution outside replacer (codes "{>Via}") ≡ some (codes "p,q")
unfolding get_substitution lookup text_eq find_field
header_is_joined = refl

first_label : get_substitution outside replacer (codes "{label1}") ≡ some (codes "x")
unfolding get_substitution lookup text_eq has_prefix atoi digits_from split_from
first_label = refl

set_then_get :
    get_substitution outside (set_custom (codes "c") (codes "d") replacer) (codes "{c}")
    ≡ some (codes "d")
unfolding get_substitution set_custom lookup put text_eq
set_then_get = refl

-- The backslash that begins the text in front of a placeholder is lost.
backslash_is_lost : replace_all outside replacer (codes "\\\\x{a}") ≡ replaced (codes "\\x{b}")
unfolding replace_all has_brace replace_placeholders next_placeholder find_unescaped unescape_braces
    replace_from has_prefix get_substitution lookup text_eq
backslash_is_lost = refl

half_is_rounded_up : round_duration 2500000 ≡ 3000000
unfolding round_duration round
half_is_rounded_up = refl

replace_all-Returns_example :
    (t : Text) × (replace_all outside replacer (codes "{a\\}{\\{>}}{label}") ≡ replaced t)
replace_all-Returns_example = replace_all-Returns outside replacer (codes "{a\\}{\\{>}}{label}")

abbrev template : Template
template = (codes "m", codes "a") ∷ []

template-ArePlain : ArePlain template
template-ArePlain = (
  (((omega arith, omega arith, omega arith), tt), ((omega arith, omega arith, omega arith), tt)),
  tt,
)

template_is_expanded : render template (codes "e") ≡ codes "m{a}e"
template_is_expanded = refl

replace_all-render_example :
    replace_all outside replacer (codes "m{a}e")
    ≡ replaced (expand (get_substitution outside replacer) template (codes "e"))
replace_all-render_example =
    replace_all-render outside replacer template (codes "e") template-ArePlain
      ((omega arith, omega arith, omega arith), tt)

write_all-joined_example :
    (write_all (new_limit_writer 3) (codes "ab" ∷ codes "cd" ∷ [])).written
    ≡ take 3 (joined (codes "ab" ∷ codes "cd" ∷ []))
write_all-joined_example = write_all-joined 3 (codes "ab" ∷ codes "cd" ∷ [])
