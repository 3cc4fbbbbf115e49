-- ===== src/Upstream/Tests.antt =====
-- The proxy directive and health checks at concrete inputs, and their theorems there.
use iotacaddy.Prelude.{
  ℕ, ◌<◌, true, false, none, some, [], ◌∷◌, ◌++◌, ◌≡◌, ◌↔◌, refl, leb, if◌then◌else◌, ◌||◌, ◌%◌,
  ◌^◌, codes, text_eq,
}
use iotacaddy.Net.{position, last_position}
use iotacaddy.EnvVars.Defs.{has_prefix, index}
use iotacaddy.VHost.Defs.{split_from}
use iotacaddy.Lexer.Words.{token_at}
use iotacaddy.Dispenser.Defs.{Dispenser, next_arg, val, same_line, line_breaks}
use iotacaddy.Conditions.Defs.{contains, has_suffix}
use iotacaddy.Iota.Int.{pos, digits_from, atoi, less}
use iotacaddy.Policy.Defs.{Host, is_down}
use iotacaddy.Proxy.Defs.{PathOps, matches}
use iotacaddy.Upstream.Ports.{
  decimal_from, decimal, hosts, parse_ports, parse_upstream, empty_range,
}
use iotacaddy.Upstream.Defs.{Library, HealthCheck, StaticUpstream, done, property, to_int32}
use iotacaddy.Upstream.Setup.{
  new_upstream, fresh_host, new_host, new_static_upstreams, allowed_path,
}
use iotacaddy.Upstream.Health.{
  Network, no_response, response, resolved, resolve_host, is_unhealthy, unhealthy_count, check_host,
  health_check_worker, panicked,
}
use iotacaddy.Upstream.Probes.{Answers, check_host-Answers}
use iotacaddy.Upstream.Ready.{AreReady, new_static_upstreams-AreReady}
use iotacaddy.Upstream.Limits.{is_down-max_fails}

abbrev library : Library
library = record {
  parse_duration = λ t. some (pos 5);
  canonical = λ t. t;
  compiles = λ t. true;
  parses_url = λ t. true;
  supports = λ t. true;
  read_file = λ t. none;
  has_certificates = λ t. false;
}

-- `proxy / a:1-2` with a block of `max_fails 2`.
abbrev directive : Dispenser
directive = record {
  filename = [];
  tokens =
      token_at 1 (codes "proxy")
      ∷ token_at 1 (codes "/")
      ∷ token_at 1 (codes "a:1-2")
      ∷ token_at 1 (codes "{")
      ∷ token_at 2 (codes "max_fails")
      ∷ token_at 2 (codes "2")
      ∷ token_at 3 (codes "}")
      ∷ [];
  loaded = 0;
  nesting = 0;
}

ports_written_out :
    parse_upstream (codes "a:8-10/b") ≡ hosts (codes "a:8/b" ∷ codes "a:9/b" ∷ codes "a:10/b" ∷ [])
unfolding parse_upstream parse_ports decimal_from decimal has_prefix index split_from text_eq
    position last_position atoi digits_from
ports_written_out = refl

ports_the_wrong_way : parse_upstream (codes "a:9-8") ≡ empty_range
unfolding parse_upstream parse_ports decimal_from decimal has_prefix index split_from text_eq
    position last_position atoi digits_from
ports_the_wrong_way = refl

new_static_upstreams-AreReady_example :
    AreReady (new_static_upstreams 9 library (codes "h") [] directive)
new_static_upstreams-AreReady_example =
    new_static_upstreams-AreReady 9 library (codes "h") [] directive tt

-- `max_fails 4294967296` makes a host down that has not failed.
abbrev limit : Dispenser
limit = record {
  filename = [];
  tokens = token_at 2 (codes "max_fails") ∷ token_at 2 (codes "4294967296") ∷ [];
  loaded = 1;
  nesting = 0;
}

abbrev limited : StaticUpstream
limited = record new_upstream { max_fails = to_int32 4294967296 }

abbrev limited_host : Host
limited_host = fresh_host limited (codes "http://a")

limit_is_cut :
    property library false (codes "max_fails") limit new_upstream
    ≡ done limited (record limit { loaded = 2 })
unfolding property text_eq next_arg same_line line_breaks val atoi digits_from
limit_is_cut = refl

is_down-max_fails_example :
    (n : ℕ) × (atoi (val (next_arg limit).0) ≡ some (pos n))
    × (0 < n)
    × (is_down limited_host ≡ (leb (2 ^ 31) (n % 2 ^ 32) || leb (n % 2 ^ 32) 0))
unfolding new_host has_prefix
is_down-max_fails_example =
    is_down-max_fails library false limit (record limit { loaded = 2 }) new_upstream limited
      (codes "http://a") limited_host 0 limit_is_cut refl

-- A service of two addresses, of which the second answers.
abbrev network : Network
network = record {
  lookup_srv = λ h. some ((codes "x", 1) ∷ (codes "y", 2) ∷ []);
  parse_url = λ t. none;
  get = λ url host.
      if text_eq url (codes "http://y:2/up") then response 200 (some (codes "ok")) else no_response;
}

abbrev check : HealthCheck
check = record {
  path = codes "/up";
  interval = pos 0;
  timeout = pos 60;
  host = [];
  port = [];
  content_string = codes "k";
}

abbrev service : Host
service = fresh_host new_upstream (codes "srv://s")

service_is_found :
    resolve_host network service.name ≡ resolved (codes "http://x:1" ∷ codes "http://y:2" ∷ []) true
unfolding resolve_host has_prefix text_eq decimal decimal_from
service_is_found = refl

one_is_unhealthy :
    unhealthy_count network check true (codes "http://x:1" ∷ codes "http://y:2" ∷ []) ≡ 1
unfolding unhealthy_count is_unhealthy text_eq contains index has_prefix
one_is_unhealthy = refl

check_host-Answers_example :
    (((check_host network check service).unhealthy ≡ 0)
      ↔ Answers network check (resolve_host network service.name))
    × ((check_host network check service).name ≡ service.name)
    × ((check_host network check service).conns ≡ service.conns)
    × ((check_host network check service).fails ≡ service.fails)
check_host-Answers_example = check_host-Answers network check service

-- A ticker must not have the interval 0.
no_interval :
    health_check_worker network [] (record new_upstream { health_check = check }) ≡ panicked
unfolding health_check_worker less
no_interval = refl

-- All paths are allowed below `/` but those that are excepted.
abbrev ops : PathOps
ops = record { clean = λ p. p; to_lower = λ p. p; case_sensitive = true }

excepted : allowed_path ops (λ a b. a ++ b) (codes "/") (codes "x" ∷ []) (codes "/x/y") ≡ false
unfolding allowed_path matches has_prefix text_eq has_suffix
excepted = refl
