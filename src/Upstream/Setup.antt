-- ===== src/Upstream/Setup.antt =====
-- `NewStaticUpstreams`, `NewHost` and `AllowedPath` of caddyhttp/proxy/upstream.go, and the methods
-- that make a static upstream an `Upstream`.
use iotacaddy.Prelude.{
  ℕ, zero, suc, ◌*◌, Bool, true, false, not, ◌&&◌, ◌||◌, Option, none, some, List, [], ◌∷◌, ◌++◌,
  ◌==◌, if◌then◌else◌, Text, codes, text_eq,
}
use iotacaddy.Lexer.Defs.{is_nil}
use iotacaddy.Dispenser.Defs.{
  Dispenser, next, next_arg, next_block, args, remaining_args, val, arg_err,
}
use iotacaddy.EnvVars.Defs.{has_prefix, replace}
use iotacaddy.Conditions.Defs.{contains, has_suffix}
use iotacaddy.Iota.Int.{ℤ, pos, negsuc, less}
use iotacaddy.Policy.Defs.{Host, Pool}
use iotacaddy.Proxy.Defs.{PathOps, slash, matches}
use iotacaddy.Upstream.Ports.{Hosts, hosts, parse_upstream, is_service}
use iotacaddy.Upstream.Defs.{
  Library, StaticUpstream, Fields, one_service_only, services_not_mixed, no_upstream_with_service,
  Fault, arg_fault, said, bad_url, bad_upstream, Outcome, done, fault, no_words, second,
  parse_block,
}

-- `http.DefaultMaxIdleConnsPerHost`.
abbrev pub default_idle : ℕ
default_idle = 2

abbrev pub new_upstream : StaticUpstream
new_upstream = record {
  from = [];
  hosts = [];
  policy = ([], []);
  fallback_delay = pos 0;
  fail_timeout = pos 0;
  try_duration = pos 0;
  try_interval = pos 250000000;
  timeout = pos (30 * second);
  keep_alive = pos default_idle;
  max_conns = pos 0;
  max_fails = pos 1;
  health_check = record {
    path = [];
    interval = pos 0;
    timeout = pos 0;
    host = [];
    port = [];
    content_string = [];
  };
  without_path_prefix = [];
  ignored_sub_paths = [];
  insecure_skip_verify = false;
  ca_cert_pool = none;
  upstream_headers = [];
  downstream_headers = [];
  upstream_replacements = [];
  downstream_replacements = [];
}

-- The addresses so far and whether one of them is a service, or an error.
pub data Targets : Type 0 where
  targets : List Text → Bool → Targets
  bad_targets : Fault → Targets

abbrev pub add_parsed : Text → List Text → Bool → Hosts → Targets
add_parsed t to has_srv (hosts hs) = targets (to ++ hs) has_srv
add_parsed t to has_srv _ = bad_targets (bad_upstream t)

-- A round of the loop over the arguments.
unfoldable pub add_target : Dispenser → Text → List Text → Bool → Targets
add_target d t to has_srv =
    if not (no_words to) && has_srv
    then bad_targets (said d one_service_only)
    else if is_service t && not (no_words to)
    then bad_targets (said d services_not_mixed)
    else add_parsed t to (has_srv || is_service t) (parse_upstream t)

unfoldable pub add_targets : Dispenser → List Text → List Text → Bool → Targets
add_targets d [] to has_srv = targets to has_srv
add_targets d (t ∷ ts) to has_srv = elim (add_target d t to has_srv) [
  | targets to' has_srv' ↦ add_targets d ts to' has_srv'
  | bad_targets e ↦ bad_targets e
]

-- The loop over the block goes on, or ends with the addresses or an error.
pub data Block : Type 0 where
  again : List Text → StaticUpstream → Dispenser → Block
  ended : List Text → StaticUpstream → Dispenser → Block
  broken : Fault → Block
  spent : Block

abbrev pub on_targets : StaticUpstream → Dispenser → Targets → Block
on_targets u d (targets to has_srv) = again to u d
on_targets u d (bad_targets e) = broken e

abbrev pub on_outcome : List Text → Outcome → Block
on_outcome to (done u d) = again to u d
on_outcome to (fault e) = broken e

abbrev pub upstream_arg : List Text → Bool → StaticUpstream → Dispenser × Bool → Block
upstream_arg to has_srv u (d, false) = broken (arg_fault (arg_err d))
upstream_arg to has_srv u (d, true) =
    if has_srv
    then broken (said d no_upstream_with_service)
    else on_targets u d (add_parsed (val d) to has_srv (parse_upstream (val d)))

abbrev pub upstream_property : List Text → Bool → StaticUpstream → Dispenser → Block
upstream_property to has_srv u d = upstream_arg to has_srv u (next_arg d)

unfoldable pub block_round : Library → List Text → Bool → StaticUpstream → Dispenser → Block
block_round o to has_srv u d =
    if text_eq (val d) (codes "upstream")
    then upstream_property to has_srv u d
    else on_outcome to (parse_block o has_srv d u)

-- What follows `NextBlock`, and what follows a round.
abbrev pub if_more : List Text → StaticUpstream → (Dispenser → Block) → Dispenser × Bool → Block
if_more to u round (d, false) = ended to u d
if_more to u round (d, true) = round d

abbrev pub after_round : (List Text → StaticUpstream → Dispenser → Block) → Block → Block
after_round loop (again to u d) = loop to u d
after_round loop (ended to u d) = ended to u d
after_round loop (broken e) = broken e
after_round loop spent = spent

-- The loop of `NextBlock`, on fuel, since it need not come to an end.
unfoldable pub block_from : ℕ → Library → List Text → Bool → StaticUpstream → Dispenser → Block
block_from zero o to has_srv u d = spent
block_from (suc f) o to has_srv u d =
    if_more to u
      (λ d'.
        after_round (λ to' u' d''. block_from f o to' has_srv u' d'')
          (block_round o to has_srv u d'))
      (next_block d)

-- The name of a host, with its scheme.
abbrev pub host_name : Text → Text
host_name h =
    if has_prefix h (codes "http")
      || (has_prefix h (codes "unix:") || (has_prefix h (codes "quic:") || is_service h))
    then h
    else codes "http://" ++ h

-- The `CheckDown` of a host, on its field `Unhealthy` and its failures.
abbrev pub check_down : ℤ → ℕ → ℕ → Bool
check_down max_fails unhealthy fails =
    if not (unhealthy == 0) then true else not (less (pos fails) max_fails)

abbrev pub at_least_zero : ℤ → ℕ
at_least_zero (pos n) = n
at_least_zero (negsuc n) = 0

-- `NewHost`; the proxy behind the host is left out. A negative `MaxConns` means no limit, as 0 does.
abbrev pub fresh_host : StaticUpstream → Text → Host
fresh_host u name = record {
  name = name;
  conns = 0;
  max_conns = at_least_zero u.max_conns;
  fails = 0;
  unhealthy = 0;
  check_down = some (check_down u.max_fails);
}

unfoldable pub new_host : Library → StaticUpstream → Text → Option Host
new_host o u h = if o.parses_url (host_name h) then some (fresh_host u (host_name h)) else none

unfoldable pub new_hosts : Library → StaticUpstream → List Text → Option Pool
new_hosts o u [] = some []
new_hosts o u (h ∷ hs) = elim (new_host o u h) [
  | none ↦ none
  | some x ↦ elim (new_hosts o u hs) [ none ↦ none | some xs ↦ some (x ∷ xs) ]
]

-- `Header.Get`: the first value.
unfoldable pub first_value : Text → Fields → Text
first_value k [] = []
first_value k ((j, v) ∷ fs) = if text_eq j k then v else first_value k fs

-- The `Host` header of the health check.
abbrev pub with_check_host : Text → StaticUpstream → StaticUpstream
with_check_host host u =
    let header = first_value (codes "Host") u.upstream_headers in
    if not (is_nil u.health_check.path) && (not (is_nil host) && contains header (codes "{host}"))
    then record u {
      health_check = record u.health_check { host = replace header (codes "{host}") host };
    }
    else u

-- What comes of one directive.
pub data Made : Type 0 where
  made : StaticUpstream → Dispenser → Made
  unmade : Fault → Made
  unfinished : Made

abbrev pub with_hosts : Text → StaticUpstream → Dispenser → Option Pool → Made
with_hosts host u d none = unmade (bad_url host)
with_hosts host u d (some pool) = made (with_check_host host (record u { hosts = pool })) d

abbrev pub on_block : Library → Text → Block → Made
on_block o host (ended to u d) =
    if no_words to then unmade (arg_fault (arg_err d)) else with_hosts host u d (new_hosts o u to)
on_block o host (again to u d) = unfinished
on_block o host (broken e) = unmade e
on_block o host spent = unfinished

abbrev pub with_targets : ℕ → Library → Text → StaticUpstream → Dispenser → Targets → Made
with_targets f o host u d (targets to has_srv) = on_block o host (block_from f o to has_srv u d)
with_targets f o host u d (bad_targets e) = unmade e

abbrev pub with_from : ℕ → Library → Text → Dispenser × List Text × Bool → Made
with_from f o host (d, from ∷ rest, true) =
    let (d', words) = remaining_args d in
    with_targets f o host (record new_upstream { from = from }) d' (add_targets d' words [] false)
with_from f o host (d, _, enough) = unmade (arg_fault (arg_err d))

unfoldable pub make_upstream : ℕ → Library → Text → Dispenser → Made
make_upstream f o host d = with_from f o host (args d ([] ∷ []))

-- `NewStaticUpstreams`, which also returns the upstreams made so far with an error.
pub data Configured : Type 0 where
  configured : List StaticUpstream → Configured
  refused : List StaticUpstream → Fault → Configured
  out_of_fuel : Configured

abbrev pub after_directive :
    List StaticUpstream → (List StaticUpstream → Dispenser → Configured) → Made → Configured
after_directive us loop (made u d) = loop (us ++ (u ∷ [])) d
after_directive us loop (unmade e) = refused us e
after_directive us loop unfinished = out_of_fuel

abbrev pub if_next : List StaticUpstream → (Dispenser → Configured) → Dispenser × Bool → Configured
if_next us round (d, false) = configured us
if_next us round (d, true) = round d

unfoldable pub new_static_upstreams :
    ℕ → Library → Text → List StaticUpstream → Dispenser → Configured
new_static_upstreams zero o host us d = out_of_fuel
new_static_upstreams (suc f) o host us d =
    if_next us
      (λ d'.
        after_directive us (λ us' d''. new_static_upstreams f o host us' d'')
          (make_upstream f o host d'))
      (next d)

-- `AllowedPath`, with `path.Join`.
abbrev pub with_slash : Text → Text → Text
with_slash original cleaned =
    if has_suffix original slash && not (has_suffix cleaned slash)
    then cleaned ++ slash
    else cleaned

unfoldable pub allowed_path : PathOps → (Text → Text → Text) → Text → List Text → Text → Bool
allowed_path o join from [] path = true
allowed_path o join from (e ∷ es) path =
    let rest = allowed_path o join from es path in
    if matches o (with_slash path (o.clean path)) (with_slash e (join from e)) then false else rest
