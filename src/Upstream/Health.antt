-- ===== src/Upstream/Health.antt =====
-- The health checks of caddyhttp/proxy/upstream.go.
use iotacaddy.Prelude.{
  ℕ, suc, Bool, true, false, not, ◌&&◌, ◌||◌, Option, none, some, List, [], ◌∷◌, ◌++◌, map, ltb,
  leb, ◌==◌, if◌then◌else◌, Text, codes, length,
}
use iotacaddy.Lexer.Defs.{is_nil}
use iotacaddy.Net.{split_host_port}
use iotacaddy.EnvVars.Defs.{has_prefix}
use iotacaddy.Conditions.Defs.{contains}
use iotacaddy.Address.Defs.{join_host_port}
use iotacaddy.Iota.Int.{pos, less}
use iotacaddy.Policy.Defs.{Host}
use iotacaddy.Upstream.Ports.{decimal, is_service}
use iotacaddy.Upstream.Defs.{HealthCheck, StaticUpstream}

-- What a request of a check comes to: it cannot be made, there is no response, or there is one,
-- whose body may be unreadable.
pub data Probe : Type 0 where
  no_request no_response : Probe
  response : ℕ → Option Text → Probe

-- `LookupSRV`, with the targets and their ports; `url.Parse`, with the host and how the URL prints
-- with another one; and a `GET` with a header for the host.
pub record Network : Type 0 where
  pub lookup_srv : Text → Option (List (Text × ℕ))
  pub parse_url : Text → Option (Text × (Text → Text))
  pub get : Text → Text → Probe

pub data Resolved : Type 0 where
  resolved : List Text → Bool → Resolved
  unresolved : Resolved

abbrev pub service_scheme : Text → Text
service_scheme h = if has_prefix h (codes "srv+https://") then codes "https" else codes "http"

abbrev pub service_name : Text → Text × ℕ → Text
service_name scheme (target, port) = scheme ++ (codes "://" ++ (target ++ (b':' ∷ decimal port)))

abbrev pub on_lookup : Text → Option (List (Text × ℕ)) → Resolved
on_lookup h none = unresolved
on_lookup h (some addrs) = resolved (map (service_name (service_scheme h)) addrs) true

unfoldable pub resolve_host : Network → Text → Resolved
resolve_host w h =
    if not (is_service h) then resolved (h ∷ []) false else on_lookup h (w.lookup_srv h)

abbrev pub host_of : Text → Text
host_of h = elim (split_host_port h) [ none ↦ h | some (host, port) ↦ host ]

abbrev pub with_new_port : Text → Text → Option (Text × (Text → Text)) → Text
with_new_port original port none = original
with_new_port original port (some (host, print)) = print (join_host_port (host_of host) port)

unfoldable pub replace_port : Network → Text → Text → Text
replace_port w original port = with_new_port original port (w.parse_url original)

abbrev pub lacks : Text → Option Text → Bool
lacks content none = true
lacks content (some body) = not (contains body content)

-- The function that says whether a candidate is unhealthy.
unfoldable pub is_unhealthy : Text → Probe → Bool
is_unhealthy content no_request = true
is_unhealthy content no_response = true
is_unhealthy content (response status body) =
    if ltb status 200 || leb 400 status
    then true
    else if is_nil content
    then false
    else lacks content body

abbrev pub check_url : Network → HealthCheck → Bool → Text → Text
check_url w c is_srv addr =
    (if not is_srv && not (is_nil c.port) then replace_port w addr c.port else addr) ++ c.path

abbrev pub probe : Network → HealthCheck → Bool → Text → Probe
probe w c is_srv addr = w.get (check_url w c is_srv addr) c.host

-- The loop over the candidates counts the unhealthy ones.
unfoldable pub unhealthy_count : Network → HealthCheck → Bool → List Text → ℕ
unhealthy_count w c is_srv [] = 0
unhealthy_count w c is_srv (a ∷ xs) =
    let n = unhealthy_count w c is_srv xs in
    if is_unhealthy c.content_string (probe w c is_srv a) then suc n else n

abbrev pub checked : Network → HealthCheck → Host → Resolved → Host
checked w c h unresolved = record h { unhealthy = 1 }
checked w c h (resolved xs is_srv) =
    if unhealthy_count w c is_srv xs == length xs
    then record h { unhealthy = 1 }
    else record h { unhealthy = 0 }

unfoldable pub check_host : Network → HealthCheck → Host → Host
check_host w c h = checked w c h (resolve_host w h.name)

-- `healthCheck`; the results that it stores for display are left out.
unfoldable pub health_check : Network → StaticUpstream → StaticUpstream
health_check w u = record u { hosts = map (check_host w u.health_check) u.hosts }

-- `HealthCheckWorker` over the networks at its ticks, until it is stopped. A ticker with an
-- interval that is not positive panics.
pub data Worker : Type 0 where
  stopped : StaticUpstream → Worker
  panicked : Worker

unfoldable pub tick : List Network → StaticUpstream → StaticUpstream
unfolding health_check
tick [] u = u
tick (w ∷ ws) u = tick ws (health_check w u)

unfoldable pub health_check_worker : Network → List Network → StaticUpstream → Worker
health_check_worker w ws u =
    if less (pos 0) u.health_check.interval then stopped (tick ws (health_check w u)) else panicked
