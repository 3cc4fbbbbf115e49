-- ===== src/Replacer/Defs.antt =====
-- `getSubstitution` of caddyhttp/httpserver/replacer.go. The result `none` is a panic.
use iotacaddy.Prelude.{
  ℕ, suc, ◌+◌, ◌-◌, ◌/◌, Bool, true, false, not, Option, none, some, List, [], ◌∷◌, ◌++◌, leb, ◌==◌,
  if◌then◌else◌, Text, codes, length, take, drop, get_elem?,
}
use iotacaddy.Net.{last_position, split_host_port}
use iotacaddy.EnvVars.Defs.{has_prefix, slice}
use iotacaddy.VHost.Defs.{split}
use iotacaddy.Iota.Int.{ℤ, pos, atoi}
use iotacaddy.Telemetry.Defs.{lookup, put}
use iotacaddy.Upstream.Ports.{decimal}
use iotacaddy.Replacer.Request.{
  write_all, new_limit_writer, max_log_body_size, Cert, Tls, Url, Header, Request, Recorder,
  Outside, Replacer, can_log_request, round_duration, one_line,
}

-- `strings.Join(values, ",")`.
abbrev pub join_values : List Text → Text
join_values [] = []
join_values (v ∷ []) = v
join_values (v ∷ w ∷ vs) = v ++ (b',' ∷ join_values (w ∷ vs))

-- The first field whose name is the same but for its case.
unfoldable pub find_field : Outside → Text → Header → Option Text
find_field o want [] = none
find_field o want ((k, vs) ∷ h) =
    if o.equal_fold k want then some (join_values vs) else find_field o want h

-- `key[from : len(key)-1]`, which panics if the end is in front of the start.
abbrev pub inner : Text → ℕ → Option Text
inner key from =
    if leb (from + 1) (length key) then some (slice key from (length key - 1)) else none

-- A search under a name that is cut out of the key.
abbrev pub found_or : Bool → Option Text → (Text → Option Text) → Option Text → Option Text
found_or false name search rest = rest
found_or true none search rest = none
found_or true (some name) search rest = elim (search name) [ none ↦ rest | some v ↦ some v ]

abbrev pub host_part : Text → Text
host_part addr = elim (split_host_port addr) [ none ↦ addr | some (host, port) ↦ host ]

abbrev pub or_empty : Replacer → Option Text → Text
or_empty r none = r.empty_value
or_empty r (some v) = v

abbrev pub port_part : Replacer → Text → Text
port_part r addr = elim (split_host_port addr) [ none ↦ r.empty_value | some (host, port) ↦ port ]

-- `path.Split`.
abbrev pub file_part : Text → Text
file_part p = elim (last_position b'/' p) [ none ↦ p | some i ↦ drop (i + 1) p ]

abbrev pub dir_part : Text → Text
dir_part p = elim (last_position b'/' p) [ none ↦ [] | some i ↦ take (i + 1) p ]

abbrev pub body_value : Replacer → Text
body_value r =
    if not (can_log_request r.request)
    then r.empty_value
    else if r.request.too_large
    then r.empty_value
    else one_line (write_all (new_limit_writer max_log_body_size) r.request.chunks).written

abbrev pub mitm_value : Option Bool → Text
mitm_value none = codes "unknown"
mitm_value (some true) = codes "likely"
mitm_value (some false) = codes "unlikely"

abbrev pub of_recorder : Replacer → (Recorder → Text) → Text
of_recorder r f = elim r.recorder [ none ↦ r.empty_value | some w ↦ f w ]

abbrev pub of_tls : Replacer → (Tls → Text) → Text
of_tls r f = elim r.request.tls [ none ↦ r.empty_value | some t ↦ f t ]

-- `getPeerCert`.
abbrev pub get_peer_cert : Request → Option Cert
get_peer_cert q = elim q.tls [ none ↦ none | some t ↦ t.peer ]

abbrev pub of_cert : Replacer → (Cert → Text) → Text
of_cert r f = elim (get_peer_cert r.request) [ none ↦ r.empty_value | some c ↦ f c ]

abbrev pub or_text : Text → Option Text → Text
or_text t none = t
or_text t (some v) = v

abbrev pub server_port : Request → Text
server_port q = elim (split_host_port q.host) [
  | some (host, port) ↦ port
  | none ↦ elim q.tls [ none ↦ codes "80" | some _ ↦ codes "443" ]
]

-- `{labelN}`.
abbrev pub label_at : Replacer → Option ℤ → Text
label_at r (some (pos (suc n))) = or_empty r (get_elem? (split b'.' r.request.host) n)
label_at r _ = r.empty_value

abbrev pub label_value : Replacer → Text → Option Text
label_value r key =
    if has_prefix key (codes "{label")
    then elim (inner key 6) [ none ↦ none | some n ↦ some (label_at r (atoi n)) ]
    else some r.empty_value

-- The cases of the `switch` with their values, in three tables.
abbrev pub tls_values : Replacer → List (Text × Text)
tls_values r =
    (codes "{tls_protocol}", of_tls r (λ t. or_text (codes "tls") t.protocol))
    ∷ (codes "{tls_cipher}", of_tls r (λ t. or_text (codes "UNKNOWN") t.cipher))
    ∷ (codes "{tls_client_escaped_cert}", of_cert r (λ c. c.escaped_pem))
    ∷ (codes "{tls_client_fingerprint}", of_cert r (λ c. c.fingerprint))
    ∷ (codes "{tls_client_i_dn}", of_cert r (λ c. c.issuer))
    ∷ (codes "{tls_client_raw_cert}", of_cert r (λ c. c.raw))
    ∷ (codes "{tls_client_s_dn}", of_cert r (λ c. c.subject))
    ∷ (codes "{tls_client_serial}", of_cert r (λ c. c.serial))
    ∷ (codes "{tls_client_v_end}", of_cert r (λ c. c.not_after))
    ∷ (codes "{tls_client_v_remain}", of_cert r (λ c. c.days_left))
    ∷ (codes "{tls_client_v_start}", of_cert r (λ c. c.not_before))
    ∷ (codes "{server_port}", server_port r.request)
    ∷ []

abbrev pub response_values : Outside → Replacer → List (Text × Text)
response_values o r =
    (codes "{when}", o.when)
    ∷ (codes "{when_iso_local}", o.when_iso_local)
    ∷ (codes "{when_iso}", o.when_iso)
    ∷ (codes "{when_unix}", o.when_unix)
    ∷ (codes "{when_unix_ms}", decimal (o.now_nano / 1000000))
    ∷ (codes "{file}", file_part r.request.url.path)
    ∷ (codes "{dir}", dir_part r.request.url.path)
    ∷ (codes "{request}", elim r.request.dump [ none ↦ r.empty_value | some d ↦ one_line d ])
    ∷ (codes "{request_body}", body_value r)
    ∷ (codes "{mitm}", mitm_value r.request.mitm)
    ∷ (codes "{status}", of_recorder r (λ w. decimal w.status))
    ∷ (codes "{size}", of_recorder r (λ w. decimal w.size))
    ∷ (codes "{latency}", of_recorder r (λ w. o.print_duration (round_duration w.elapsed)))
    ∷ (codes "{latency_ms}", of_recorder r (λ w. decimal (w.elapsed / 1000000)))
    ∷ []

abbrev pub request_values : Outside → Replacer → List (Text × Text)
request_values o r =
    let (q, u) : Request × Url = (r.request, r.request.original_url) in
    (codes "{method}", q.method)
    ∷ (codes "{scheme}", elim q.tls [ none ↦ codes "http" | some _ ↦ codes "https" ])
    ∷ (codes "{hostname}", or_empty r o.hostname)
    ∷ (codes "{host}", q.host)
    ∷ (codes "{hostonly}", host_part q.host)
    ∷ (codes "{path}", u.path)
    ∷ (codes "{path_escaped}", o.query_escape u.path)
    ∷ (codes "{request_id}", q.request_id)
    ∷ (codes "{rewrite_path}", q.url.path)
    ∷ (codes "{rewrite_path_escaped}", o.query_escape q.url.path)
    ∷ (codes "{query}", u.raw_query)
    ∷ (codes "{query_escaped}", o.query_escape u.raw_query)
    ∷ (codes "{fragment}", u.fragment)
    ∷ (codes "{proto}", q.proto)
    ∷ (codes "{remote}", host_part q.remote_addr)
    ∷ (codes "{port}", port_part r q.remote_addr)
    ∷ (codes "{uri}", u.request_uri)
    ∷ (codes "{uri_escaped}", o.query_escape u.request_uri)
    ∷ (codes "{rewrite_uri}", q.url.request_uri)
    ∷ (codes "{rewrite_uri_escaped}", o.query_escape q.url.request_uri)
    ∷ []

abbrev pub request_value : Outside → Replacer → Text → Option Text
request_value o r key =
    elim (lookup key (request_values o r ++ (response_values o r ++ tls_values r))) [
      | some v ↦ some v
      | none ↦ label_value r key
    ]

abbrev pub response_field : Outside → Replacer → Text → Option Text
response_field o r want = elim r.recorder [ none ↦ none | some w ↦ find_field o want w.header ]

-- The rune behind the opening brace tells where to search.
abbrev pub by_kind : Outside → Replacer → Text → ℕ → Option Text
by_kind o r key c =
    found_or (c == b'>') (inner key 2) (λ want. find_field o want r.request.header)
      (found_or (c == b'<') (inner key 2) (response_field o r) (
        found_or (c == b'~') (inner key 2) r.request.cookie (
          found_or (c == b'?') (inner key 2) (λ name. some (r.request.query name))
            (request_value o r key))))

unfoldable pub get_substitution : Outside → Replacer → Text → Option Text
get_substitution o r key = elim (lookup key r.custom) [
  | some v ↦ some v
  | none ↦ elim (get_elem? key 1) [ none ↦ none | some c ↦ by_kind o r key c ]
]

-- `Set`.
unfoldable pub set_custom : Text → Text → Replacer → Replacer
set_custom key value r = record r { custom = put (b'{' ∷ (key ++ (b'}' ∷ []))) value r.custom }
