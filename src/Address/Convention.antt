-- ===== src/Address/Convention.antt =====
-- The scheme and the port that `standardizeAddress` of caddyhttp/httpserver/plugin.go leaves.
use iotacaddy.Prelude.{
  Bool, true, false, not, ◌&&◌, ◌||◌, Option, none, some, [], ◌++◌, ◌≡◌, refl, ap, ◌∙◌, ltb, arith,
  Text, codes, text_eq, length, length-append, Bool-cases, inl, inr,
}
use iotacaddy.Lexer.Defs.{is_nil}
use iotacaddy.Net.{split_host_port}
use iotacaddy.Address.Defs.{
  Address, Url, Library, Settings, http, https, separator, Standardized, standard, bad_host, no_url,
  scheme_twice, against_convention, with_slashes, split_port, scheme_port, finish, named_port,
  standardize_url, standardize_address, key,
}

-- The scheme is not that of the other port, and the port is a number if the settings' ports are.
pub record IsConventional (g : Settings) (a : Address) : Type 0 where
  pub no_http : (text_eq a.scheme http && text_eq a.port g.https_port) ≡ false
  pub no_https : (text_eq a.scheme https && text_eq a.port g.http_port) ≡ false
  pub no_name : (text_eq a.port http || text_eq a.port https) ≡ false

pub Conventional : Settings → Standardized → Type 0
Conventional g (standard a) = IsConventional g a
Conventional g (bad_host a) = IsConventional g a
Conventional g no_url = Unit
Conventional g scheme_twice = Unit
Conventional g against_convention = Unit

-- The ports of the settings differ, and are no names.
pub record HasPorts (g : Settings) : Type 0 where
  pub different : text_eq g.http_port g.https_port ≡ false
  pub different' : text_eq g.https_port g.http_port ≡ false
  pub http_number : (text_eq g.http_port http || text_eq g.http_port https) ≡ false
  pub https_number : (text_eq g.https_port http || text_eq g.https_port https) ≡ false

finish-Conventional :
    (g : Settings) (b : Bool) (a : Address) → IsConventional g a → Conventional g (finish b a)
unfolding Conventional
finish-Conventional g true a h = h
finish-Conventional g false a h = h

named_port-Conventional :
    (g : Settings) (input : Text) (u : Url) (host port : Text) (failed : Bool)
    → HasPorts g
    → Conventional g (named_port g input u host port failed)
unfolding named_port Conventional
named_port-Conventional g input u host port failed w =
    elim (Bool-cases (not (is_nil u.scheme) && (text_eq port http || text_eq port https))) [
      | inl a ↦ rw a tt
      | inr a ↦
          elim (Bool-cases (
            (text_eq u.scheme http && text_eq port g.https_port)
            || (text_eq u.scheme https && text_eq port g.http_port))) [
              | inl b ↦ rw a (rw b tt)
              | inr b ↦ elim (Bool-cases (text_eq port http)) [
                | inl c ↦ rw a (
                    rw b (
                      rw c (
                        finish-Conventional g failed _ (record {
                          no_http = rw w.different (unfold text_eq in refl);
                          no_https = unfold text_eq in refl;
                          no_name = w.http_number;
                        }))))
                | inr c ↦ elim (Bool-cases (text_eq port https)) [
                  | inl d ↦ rw a (
                      rw b (
                        rw c (
                          rw d (
                            finish-Conventional g failed _ (record {
                              no_http = unfold text_eq in refl;
                              no_https = rw w.different' (unfold text_eq in refl);
                              no_name = w.https_number;
                            })))))
                  | inr d ↦ rw a (
                      rw b (
                        rw c (
                          rw d (
                            finish-Conventional g failed _ (record {
                              no_http = or_left _ _ b;
                              no_https = or_right _ _ b;
                              no_name = rw c d;
                            })))))
                ]
              ]
            ]
    ]
  where
    or_left : (x y : Bool) → (x || y) ≡ false → x ≡ false
    or_left true y h = absurd (cc)
    or_left false y h = refl

    or_right : (x y : Bool) → (x || y) ≡ false → y ≡ false
    or_right true y h = absurd (cc)
    or_right false y h = h

standardize_url-Conventional :
    (g : Settings) (input : Text) (u : Option Url)
    → HasPorts g
    → Conventional g (standardize_url g input u)
unfolding Conventional
standardize_url-Conventional g input none w = tt
standardize_url-Conventional g input (some u) w =
    let (host, port, failed) = split_port u.host in
    named_port-Conventional g input u host (scheme_port g u.scheme port) failed w

-- Whatever a URL is parsed to: an address that is returned, also with an error, does not have the
-- scheme http with the HTTPS port, nor the scheme https with the HTTP port, and its port is none of
-- the names of the two schemes. The two ports of the settings differ, and are no such names.
pub standardize_address-Conventional :
    (o : Library) (g : Settings) (input : Text)
    → HasPorts g
    → Conventional g (standardize_address o g input)
unfolding standardize_address
standardize_address-Conventional o g input w =
    standardize_url-Conventional g input (o.parse_url (with_slashes input)) w

-- The key of an address with a name for its port: the scheme that the name brings makes the key
-- longer than the input, and cutting the input there panics. `url.Parse` gives the address as the
-- host, and the HTTPS port is not empty.
pub key-standardize_address :
    (o : Library) (g : Settings) (host : Text)
    → o.parse_url (with_slashes (host ++ codes ":https"))
      ≡ some (record { scheme = []; host = host ++ codes ":https"; path = [] })
    → split_host_port (host ++ codes ":https") ≡ some (host, https)
    → is_nil g.https_port ≡ false
    → (a : Address) × (standardize_address o g (host ++ codes ":https") ≡ standard a)
      × (key a ≡ none)
unfolding standardize_address named_port key text_eq
key-standardize_address o g host p q n =
    let a : Address = record {
      original = host ++ codes ":https";
      scheme = https;
      host = host;
      port = g.https_port;
      path = [];
    } in
    let l : ltb (length (host ++ codes ":https")) (length (https ++ (separator ++ host))) ≡ true =
      ground (arith, length-append {0} host (codes ":https")) in
    (
      a,
      ap (standardize_url g (host ++ codes ":https")) p ∙ rw (q, split_port) refl,
      rw (n, key) (rw l refl),
    )
