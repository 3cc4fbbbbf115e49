-- ===== src/Upstream/Defs.antt =====
-- `staticUpstream` and `parseBlock` of caddyhttp/proxy/upstream.go. A duration is an integer, of
-- nanoseconds.
use iotacaddy.Prelude.{
  ℕ, zero, suc, ◌-◌, ◌*◌, ◌%◌, ◌^◌, Bool, true, false, not, ◌&&◌, ◌||◌, Option, none, some, List,
  [], ◌∷◌, ◌++◌, ltb, if◌then◌else◌, Text, codes, text_eq,
}
use iotacaddy.Lexer.Defs.{is_nil}
use iotacaddy.Dispenser.Defs.{Dispenser, Error, next_arg, args, remaining_args, val, arg_err}
use iotacaddy.EnvVars.Defs.{has_prefix}
use iotacaddy.Iota.Int.{ℤ, pos, negsuc, less, atoi}
use iotacaddy.Policy.Defs.{Host}

-- `time.ParseDuration`, `textproto.CanonicalMIMEHeaderKey`, whether `regexp.Compile` and
-- `url.Parse` succeed, the policies that are registered, and the files of certificates, with
-- whether certificates are found in one.
pub record Library : Type 0 where
  pub parse_duration : Text → Option ℤ
  pub canonical : Text → Text
  pub compiles : Text → Bool
  pub parses_url : Text → Bool
  pub supports : Text → Bool
  pub read_file : Text → Option Text
  pub has_certificates : Text → Bool

pub record HealthCheck : Type 0 where
  pub path : Text
  pub interval : ℤ
  pub timeout : ℤ
  pub host : Text
  pub port : Text
  pub content_string : Text

-- A header field with its values in the order in which they were added, and a replacement.
abbrev pub Fields : Type 0
Fields = List (Text × Text)

pub record Replacement : Type 0 where
  pub key : Text
  pub pattern : Text
  pub to : Text

-- `staticUpstream`; the policy is given by its name and its argument.
pub record StaticUpstream : Type 0 where
  pub from : Text
  pub hosts : List Host
  pub policy : Text × Text
  pub fallback_delay : ℤ
  pub fail_timeout : ℤ
  pub try_duration : ℤ
  pub try_interval : ℤ
  pub timeout : ℤ
  pub keep_alive : ℤ
  pub max_conns : ℤ
  pub max_fails : ℤ
  pub health_check : HealthCheck
  pub without_path_prefix : Text
  pub ignored_sub_paths : List Text
  pub insecure_skip_verify : Bool
  pub ca_cert_pool : Option (List Text)
  pub upstream_headers : Fields
  pub downstream_headers : Fields
  pub upstream_replacements : List Replacement
  pub downstream_replacements : List Replacement

-- The errors: of the number of arguments, of what the directive makes of them, and of a value.
pub data Reason : Type 0 where
  one_service_only services_not_mixed no_upstream_with_service no_port_with_service : Reason
  max_fails_too_low at_odds : Reason
  bad_health_port bad_timeout unknown_property no_certificates unreadable : Text → Reason

pub data Fault : Type 0 where
  arg_fault : Error → Fault
  said : Dispenser → Reason → Fault
  bad_duration bad_number bad_pattern bad_url bad_upstream : Text → Fault

pub data Outcome : Type 0 where
  done : StaticUpstream → Dispenser → Outcome
  fault : Fault → Outcome

-- `int32(n)`.
abbrev pub to_int32 : ℕ → ℤ
to_int32 n = let m = n % 2 ^ 32 in if ltb m (2 ^ 31) then pos m else negsuc (2 ^ 32 - m - 1)

abbrev pub second : ℕ
second = 1000000000

-- A property with an argument.
abbrev pub if_arg : Dispenser × Bool → (Dispenser → Text → Outcome) → Outcome
if_arg (d, true) f = f d (val d)
if_arg (d, false) f = fault (arg_fault (arg_err d))

abbrev pub with_arg : Dispenser → (Dispenser → Text → Outcome) → Outcome
with_arg d f = if_arg (next_arg d) f

abbrev pub on_duration : Text → Dispenser → (ℤ → StaticUpstream) → Option ℤ → Outcome
on_duration v d set none = fault (bad_duration v)
on_duration v d set (some t) = done (set t) d

abbrev pub duration_arg : Library → Dispenser → (ℤ → StaticUpstream) → Outcome
duration_arg o d set = with_arg d λ d' v. on_duration v d' set (o.parse_duration v)

abbrev pub on_number : Text → (ℤ → Outcome) → Option ℤ → Outcome
on_number v f none = fault (bad_number v)
on_number v f (some n) = f n

abbrev pub policy_property : Library → Dispenser → StaticUpstream → Outcome
policy_property o d u = with_arg d λ d' v.
    if not (o.supports v)
    then fault (arg_fault (arg_err d'))
    else (let (d'', more) = next_arg d' in
        done (record u { policy = (v, if more then val d'' else []) }) d'')

abbrev pub max_fails_at : Dispenser → StaticUpstream → ℤ → Outcome
max_fails_at d u (pos (suc k)) = done (record u { max_fails = to_int32 (suc k) }) d
max_fails_at d u (pos zero) = fault (said d max_fails_too_low)
max_fails_at d u (negsuc k) = fault (said d max_fails_too_low)

abbrev pub max_fails_property : Dispenser → StaticUpstream → Outcome
max_fails_property d u = with_arg d λ d' v. on_number v (λ n. max_fails_at d' u n) (atoi v)

abbrev pub max_conns_property : Dispenser → StaticUpstream → Outcome
max_conns_property d u =
    with_arg d λ d' v. on_number v (λ n. done (record u { max_conns = n }) d') (atoi v)

abbrev pub or_default : ℤ → ℕ → ℤ
or_default (pos zero) n = pos n
or_default (pos (suc k)) n = pos (suc k)
or_default (negsuc k) n = negsuc k

abbrev pub health_check_property : Dispenser → StaticUpstream → Outcome
health_check_property d u = with_arg d λ d' v.
    done
      (record u {
        health_check = record u.health_check {
          path = v;
          interval = or_default u.health_check.interval (30 * second);
          timeout = or_default u.health_check.timeout (60 * second);
        };
      })
      d'

abbrev pub health_port_property : Bool → Dispenser → StaticUpstream → Outcome
health_port_property has_srv d u = with_arg d λ d' v.
    if has_srv
    then fault (said d' no_port_with_service)
    else on_number v
        (λ n.
          if less n (pos 0)
          then fault (said d' (bad_health_port v))
          else done (record u { health_check = record u.health_check { port = v } }) d')
        (atoi v)

-- `header_upstream` and `header_downstream`, on their three arguments.
abbrev pub add_field : Library → Bool → Text → Text → StaticUpstream → StaticUpstream
add_field o up k v u =
    if up
    then record u { upstream_headers = u.upstream_headers ++ ((o.canonical k, v) ∷ []) }
    else record u { downstream_headers = u.downstream_headers ++ ((o.canonical k, v) ∷ []) }

abbrev pub add_replacement : Library → Bool → Text → Text → Text → StaticUpstream → StaticUpstream
add_replacement o up k v to u =
    let r : Replacement = record { key = o.canonical k; pattern = v; to = to } in
    if up
    then record u { upstream_replacements = u.upstream_replacements ++ (r ∷ []) }
    else record u { downstream_replacements = u.downstream_replacements ++ (r ∷ []) }

abbrev pub header_args : Library → Bool → StaticUpstream → Dispenser × List Text × Bool → Outcome
header_args o up u (d, h ∷ v ∷ r ∷ rest, true) =
    if has_prefix h (codes "-") || has_prefix h (codes "+")
    then fault (arg_fault (arg_err d))
    else if not (o.compiles v)
    then fault (bad_pattern v)
    else done (add_replacement o up h v r u) d
header_args o up u (d, h ∷ v ∷ rest, enough) =
    if is_nil v && not (has_prefix h (codes "-"))
    then fault (arg_fault (arg_err d))
    else done (add_field o up h v u) d
header_args o up u (d, _, enough) = fault (arg_fault (arg_err d))

abbrev pub header_property : Library → Bool → Dispenser → StaticUpstream → Outcome
header_property o up d u = header_args o up u (args d ([] ∷ [] ∷ [] ∷ []))

abbrev pub transparent : Library → StaticUpstream → StaticUpstream
transparent o u = add_field o true (codes "X-Forwarded-Port") (codes "{server_port}") (
    add_field o true (codes "X-Forwarded-Proto") (codes "{scheme}") (
      add_field o true (codes "X-Real-IP") (codes "{remote}")
        (add_field o true (codes "Host") (codes "{host}") u)))

abbrev pub websocket : Library → StaticUpstream → StaticUpstream
websocket o u =
    add_field o true (codes "Upgrade") (codes "{>Upgrade}")
      (add_field o true (codes "Connection") (codes "{>Connection}") u)

-- The loop over the files of certificates; what is added are their contents.
unfoldable pub is_added : Text → List Text → Bool
is_added f [] = false
is_added f (g ∷ gs) = text_eq g f || is_added f gs

pub data Pool : Type 0 where
  pool : List Text → Pool
  no_pool : Reason → Pool

abbrev pub keep_file : Library → Text → (Text → Pool) → Option Text → Pool
keep_file o f more none = no_pool (unreadable f)
keep_file o f more (some c) =
    if not (o.has_certificates c) then no_pool (no_certificates f) else more c

unfoldable pub read_pool : Library → List Text → List Text → List Text → Pool
read_pool o added certs [] = pool certs
read_pool o added certs (f ∷ fs) = elim (is_added f added) [
  | true ↦ read_pool o added certs fs
  | false ↦ keep_file o f (λ c. read_pool o (f ∷ added) (certs ++ (c ∷ [])) fs) (o.read_file f)
]

abbrev pub on_pool : Dispenser → StaticUpstream → Pool → Outcome
on_pool d u (pool certs) = done (record u { ca_cert_pool = some certs }) d
on_pool d u (no_pool r) = fault (said d r)

abbrev pub no_words : List Text → Bool
no_words [] = true
no_words (_ ∷ _) = false

abbrev pub certificates_property : Library → Dispenser → StaticUpstream → Outcome
certificates_property o d u =
    let (d', files) = remaining_args d in
    if no_words files
    then fault (arg_fault (arg_err d'))
    else on_pool d' u (read_pool o [] [] files)

abbrev pub except_property : Dispenser → StaticUpstream → Outcome
except_property d u =
    let (d', paths) = remaining_args d in
    if no_words paths
    then fault (arg_fault (arg_err d'))
    else done (record u { ignored_sub_paths = paths }) d'

abbrev pub keepalive_property : Dispenser → StaticUpstream → Outcome
keepalive_property d u = with_arg d λ d' v.
    on_number v
      (λ n.
        if less n (pos 0)
        then fault (arg_fault (arg_err d'))
        else done (record u { keep_alive = n }) d')
      (atoi v)

abbrev pub on_timeout : Dispenser → StaticUpstream → Text → Option ℤ → Outcome
on_timeout d u v none = fault (said d (bad_timeout v))
on_timeout d u v (some t) = done (record u { timeout = t }) d

-- The `switch` of `parseBlock`.
unfoldable pub property : Library → Bool → Text → Dispenser → StaticUpstream → Outcome
property o has_srv k d u =
    if text_eq k (codes "policy")
    then policy_property o d u
    else if text_eq k (codes "fallback_delay")
    then duration_arg o d (λ t. record u { fallback_delay = t })
    else if text_eq k (codes "fail_timeout")
    then duration_arg o d (λ t. record u { fail_timeout = t })
    else if text_eq k (codes "max_fails")
    then max_fails_property d u
    else if text_eq k (codes "try_duration")
    then duration_arg o d (λ t. record u { try_duration = t })
    else if text_eq k (codes "try_interval")
    then duration_arg o d (λ t. record u { try_interval = t })
    else if text_eq k (codes "max_conns")
    then max_conns_property d u
    else if text_eq k (codes "health_check")
    then health_check_property d u
    else if text_eq k (codes "health_check_interval")
    then duration_arg o d (λ t. record u { health_check = record u.health_check { interval = t } })
    else if text_eq k (codes "health_check_timeout")
    then duration_arg o d (λ t. record u { health_check = record u.health_check { timeout = t } })
    else if text_eq k (codes "health_check_port")
    then health_port_property has_srv d u
    else if text_eq k (codes "health_check_contains")
    then with_arg d
        (λ d' v. done (record u { health_check = record u.health_check { content_string = v } }) d')
    else if text_eq k (codes "header_upstream")
    then header_property o true d u
    else if text_eq k (codes "header_downstream")
    then header_property o false d u
    else if text_eq k (codes "transparent")
    then done (transparent o u) d
    else if text_eq k (codes "websocket")
    then done (websocket o u) d
    else if text_eq k (codes "without")
    then with_arg d (λ d' v. done (record u { without_path_prefix = v }) d')
    else if text_eq k (codes "except")
    then except_property d u
    else if text_eq k (codes "insecure_skip_verify")
    then done (record u { insecure_skip_verify = true }) d
    else if text_eq k (codes "ca_certificates")
    then certificates_property o d u
    else if text_eq k (codes "keepalive")
    then keepalive_property d u
    else if text_eq k (codes "timeout")
    then with_arg d (λ d' v. on_timeout d' u v (o.parse_duration v))
    else fault (said d (unknown_property k))

abbrev pub has_pool : Option (List Text) → Bool
has_pool none = false
has_pool (some certs) = true

-- The test behind the `switch`.
abbrev pub unless_at_odds : Outcome → Outcome
unless_at_odds (done u d) =
    if u.insecure_skip_verify && has_pool u.ca_cert_pool then fault (said d at_odds) else done u d
unless_at_odds (fault e) = fault e

unfoldable pub parse_block : Library → Bool → Dispenser → StaticUpstream → Outcome
parse_block o has_srv d u = unless_at_odds (property o has_srv (val d) d u)
