-- ===== src/Address/Defs.antt =====
-- Site addresses of caddyhttp/httpserver/plugin.go, and the check that those of a Caddyfile differ.
use iotacaddy.Prelude.{
  ◌+◌, Bool, true, false, not, ◌&&◌, ◌||◌, Option, none, some, List, [], ◌∷◌, ◌++◌, if◌then◌else◌,
  ltb, Text, codes, text_eq, length, drop,
}
use iotacaddy.Lexer.Defs.{is_nil}
use iotacaddy.Net.{split_host_port, position}
use iotacaddy.EnvVars.Defs.{has_prefix, index}
use iotacaddy.Conditions.Defs.{contains}

pub record Address : Type 0 where
  pub original : Text
  pub scheme : Text
  pub host : Text
  pub port : Text
  pub path : Text

pub record Url : Type 0 where
  pub scheme : Text
  pub host : Text
  pub path : Text

-- `url.Parse`, `net.ParseIP` with `String` of what it returns, and `strings.ToLower`.
pub record Library : Type 0 where
  pub parse_url : Text → Option Url
  pub parse_ip : Text → Option Text
  pub to_lower : Text → Text

-- The variables and constants of the package.
pub record Settings : Type 0 where
  pub http_port : Text
  pub https_port : Text
  pub default_http_port : Text
  pub default_https_port : Text
  pub host : Text
  pub default_host : Text
  pub port : Text
  pub default_port : Text
  pub case_sensitive : Bool

abbrev pub http : Text
http = codes "http"

abbrev pub https : Text
https = codes "https"

abbrev pub separator : Text
separator = codes "://"

-- `net.JoinHostPort`.
unfoldable pub join_host_port : Text → Text → Text
join_host_port host port = elim (position b':' host) [
  | none ↦ host ++ (b':' ∷ port)
  | some i ↦ (b'[' ∷ host) ++ (codes "]:" ++ port)
]

abbrev pub shown_scheme : Settings → Address → Text
shown_scheme g a =
    if not (is_nil a.scheme) then a.scheme else if text_eq a.port g.https_port then https else http

-- `Address.String`.
unfoldable pub to_string : Settings → Address → Text
to_string g a =
    let scheme = shown_scheme g a in
    let shows_port =
      not (is_nil a.port)
      && ((text_eq scheme https && not (text_eq a.port g.default_https_port))
          || (text_eq scheme http && not (text_eq a.port g.default_http_port))) in
    if is_nil a.host && is_nil a.port
    then []
    else (scheme ++ separator)
      ++ ((if shows_port then join_host_port a.host a.port else a.host) ++ a.path)

-- `Address.VHost`.
unfoldable pub vhost : Address → Text
vhost a = elim (index a.original separator) [ none ↦ a.original | some i ↦ drop (i + 3) a.original ]

-- `Address.Normalize`.
unfoldable pub normalize : Library → Settings → Address → Address
normalize o g a = record {
  original = a.original;
  scheme = o.to_lower a.scheme;
  host = o.to_lower (elim (o.parse_ip a.host) [ none ↦ a.host | some ip ↦ ip ]);
  port = a.port;
  path = if g.case_sensitive then a.path else o.to_lower a.path;
}

abbrev pub scheme_host : Address → Text
scheme_host a = (if is_nil a.scheme then [] else a.scheme ++ separator) ++ a.host

-- `Address.Key`; `none` is a panic, at a slice of the original that starts behind its end.
unfoldable pub key : Address → Option Text
key a =
    let res = scheme_host a in
    if is_nil a.port
    then some (res ++ a.path)
    else if ltb (length a.original) (length res)
    then none
    else if has_prefix (drop (length res) a.original) (b':' ∷ a.port)
    then some ((res ++ (b':' ∷ a.port)) ++ a.path)
    else some (res ++ a.path)

pub data Standardized : Type 0 where
  standard : Address → Standardized
  bad_host : Address → Standardized
  no_url scheme_twice against_convention : Standardized

-- The input of `url.Parse`.
abbrev pub with_slashes : Text → Text
with_slashes s =
    if not (contains s (codes "//")) && not (has_prefix s (codes "/")) then codes "//" ++ s else s

-- The host, the port, and whether there is an error.
abbrev pub split_port : Text → Text × Text × Bool
split_port host = elim (split_host_port host) [
  | some (h, p) ↦ (h, p, false)
  | none ↦ elim (split_host_port (host ++ (b':' ∷ []))) [
    | some (h, p) ↦ (h, p, false)
    | none ↦ (host, [], true)
  ]
]

abbrev pub scheme_port : Settings → Text → Text → Text
scheme_port g scheme port =
    if not (is_nil port)
    then port
    else if text_eq scheme http
    then g.http_port
    else if text_eq scheme https
    then g.https_port
    else port

abbrev pub finish : Bool → Address → Standardized
finish failed a = if failed then bad_host a else standard a

-- The tests behind the port, and the ports given by name.
unfoldable pub named_port : Settings → Text → Url → Text → Text → Bool → Standardized
named_port g input u host port failed =
    let a : Address = record {
      original = input;
      scheme = u.scheme;
      host = host;
      port = port;
      path = u.path;
    } in
    if not (is_nil u.scheme) && (text_eq port http || text_eq port https)
    then scheme_twice
    else if (text_eq u.scheme http && text_eq port g.https_port)
        || (text_eq u.scheme https && text_eq port g.http_port)
    then against_convention
    else if text_eq port http
    then finish failed (record a { scheme = http; port = g.http_port })
    else if text_eq port https
    then finish failed (record a { scheme = https; port = g.https_port })
    else finish failed a

abbrev pub standardize_url : Settings → Text → Option Url → Standardized
standardize_url g input none = no_url
standardize_url g input (some u) =
    let (host, port, failed) = split_port u.host in
    named_port g input u host (scheme_port g u.scheme port) failed

-- `standardizeAddress`; an error of the second split is returned at its end.
unfoldable pub standardize_address : Library → Settings → Text → Standardized
standardize_address o g input = standardize_url g input (o.parse_url (with_slashes input))

-- What `InspectServerBlocks` has seen: the keys that have a configuration, and the addresses.
pub record Seen : Type 0 where
  pub keys : List Text
  pub addresses : List Text

pub data Inspected : Type 0 where
  seen : Seen → Inspected
  refused panicked : Inspected

unfoldable pub is_among : Text → List Text → Bool
is_among s [] = false
is_among s (t ∷ ts) = text_eq t s || is_among s ts

-- The address with what the command line gives, and with the default port.
abbrev pub filled : Settings → Address → Address
filled g a =
    let a' =
      if is_nil a.host && not (text_eq g.host g.default_host)
      then record a { host = g.host }
      else a in
    if is_nil a'.port && not (text_eq g.port g.default_port)
    then record a' { port = g.port }
    else a'

abbrev pub with_port : Settings → Address → Address
with_port g a =
    if is_nil a.port && text_eq g.port g.default_port then record a { port = g.port } else a

unfoldable pub add_address : Settings → Text → Address → Seen → Inspected
add_address g k a st =
    let s = to_string g (with_port g (filled g a)) in
    if is_among k st.keys
    then refused
    else if is_among s st.addresses
    then refused
    else seen (record { keys = k ∷ st.keys; addresses = s ∷ st.addresses })

abbrev pub add_key : Settings → Address → Seen → Option Text → Inspected
add_key g a st none = panicked
add_key g a st (some k) = add_address g k a st

abbrev pub inspect_standard : Library → Settings → Seen → Standardized → Inspected
inspect_standard o g st (standard a) = let a' = normalize o g a in add_key g a' st (key a')
inspect_standard o g st _ = refused

unfoldable pub inspect_key : Library → Settings → Text → Seen → Inspected
inspect_key o g k st = inspect_standard o g st (standardize_address o g k)

-- The loop over the keys of all server blocks, and what follows a round of it.
abbrev pub after_key : (Seen → Inspected) → Inspected → Inspected
after_key rest refused = refused
after_key rest panicked = panicked
after_key rest (seen st) = rest st

unfoldable pub inspect_keys : Library → Settings → List Text → Seen → Inspected
inspect_keys o g [] st = seen st
inspect_keys o g (k ∷ ks) st = after_key (λ st'. inspect_keys o g ks st') (inspect_key o g k st)
