-- ===== src/Address/Tests.antt =====
-- Site addresses at concrete inputs, and their theorems there.
use iotacaddy.Prelude.{
  false, All, List, Text, true, none, some, [], ◌∷◌, ◌≡◌, refl, codes, text_eq, drop,
}
use iotacaddy.EnvVars.Defs.{has_prefix, index}
use iotacaddy.Conditions.Defs.{contains}
use iotacaddy.Net.{split_host_port, position, last_position}
use iotacaddy.Address.Defs.{
  Address, Library, Settings, standard, standardize_address, named_port, key, vhost, to_string,
  join_host_port, normalize, Seen, seen, refused, inspect_keys, inspect_key, add_address, is_among,
}
use iotacaddy.Address.Convention.{HasPorts, key-standardize_address}
use iotacaddy.Address.Distinct.{AreSites, Distinct, inspect_keys-AreDistinct}

-- A parser that takes the slashes off and has the rest for the host.
abbrev library : Library
library = record {
  parse_url = λ s. some (record { scheme = []; host = drop 2 s; path = [] });
  parse_ip = λ h. none;
  to_lower = λ s. s;
}

abbrev settings : Settings
settings = record {
  http_port = codes "80";
  https_port = codes "443";
  default_http_port = codes "80";
  default_https_port = codes "443";
  host = [];
  default_host = [];
  port = codes "2015";
  default_port = codes "2015";
  case_sensitive = true;
}

settings-HasPorts : HasPorts settings
unfolding text_eq
settings-HasPorts = record {
  different = refl;
  different' = refl;
  http_number = refl;
  https_number = refl;
}

printed :
    to_string settings (record {
      original = [];
      scheme = [];
      host = codes "a";
      port = codes "81";
      path = codes "/p";
    })
    ≡ codes "http://a:81/p"
unfolding to_string text_eq join_host_port position
printed = refl

vhost_bare :
    vhost (record { original = codes "http://a/p"; scheme = []; host = []; port = []; path = [] })
    ≡ codes "a/p"
unfolding vhost index has_prefix
vhost_bare = refl

key-standardize_address_example :
    (a : Address) × (standardize_address library settings (codes "a:https") ≡ standard a)
    × (key a ≡ none)
unfolding contains has_prefix split_host_port position last_position
key-standardize_address_example =
    key-standardize_address library settings (codes "a") refl refl refl

abbrev two_seen : Seen
two_seen = record {
  keys = codes "b" ∷ codes "a" ∷ [];
  addresses = codes "http://b:2015" ∷ codes "http://a:2015" ∷ [];
}

two_sites :
    inspect_keys library settings
      (codes "a" ∷ codes "b" ∷ [])
      (record { keys = []; addresses = [] })
    ≡ seen two_seen
unfolding inspect_keys inspect_key standardize_address contains has_prefix split_host_port position
    last_position named_port text_eq normalize key add_address to_string join_host_port is_among
two_sites = refl

inspect_keys-AreDistinct_example :
    (ks : List Text) × (ss : List Text) × AreSites library settings
      (codes "a" ∷ codes "b" ∷ [])
      ks
      ss
    × Distinct ks
    × Distinct ss
    × All (λ k. is_among k [] ≡ false) ks
    × All (λ s. is_among s [] ≡ false) ss
inspect_keys-AreDistinct_example =
    inspect_keys-AreDistinct library settings (codes "a" ∷ codes "b" ∷ [])
      (record { keys = []; addresses = [] }) two_seen two_sites

one_site_twice :
    inspect_keys library settings
      (codes "a" ∷ codes "a:2015" ∷ [])
      (record { keys = []; addresses = [] })
    ≡ refused
unfolding inspect_keys inspect_key standardize_address contains has_prefix split_host_port position
    last_position named_port text_eq normalize key add_address to_string join_host_port is_among
one_site_twice = refl
