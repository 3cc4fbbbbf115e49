-- ===== src/Upstream/Ready.antt =====
-- The upstreams that caddyhttp/proxy/upstream.go hands to the proxy.
use iotacaddy.Prelude.{
  ℕ, zero, suc, ◌<◌, Bool, true, false, ◌&&◌, Option, none, some, List, [], ◌∷◌, ◌++◌, ◌≡◌, refl,
  arith, Text, codes, text_eq, length, Bool-cases, inl, inr, All,
}
use iotacaddy.Dispenser.Defs.{Dispenser, next, next_arg, next_block, args, remaining_args, val}
use iotacaddy.Policy.Defs.{Host, Pool}
use iotacaddy.Upstream.Ports.{
  Hosts, hosts, port_at_service, many_separators, bad_port, empty_range, parse_upstream,
}
use iotacaddy.Upstream.Defs.{
  Library, StaticUpstream, Outcome, done, fault, has_pool, unless_at_odds, property, parse_block,
}
use iotacaddy.Upstream.Setup.{
  new_upstream, Targets, targets, bad_targets, add_parsed, add_targets, after_round, if_more,
  upstream_arg, after_directive, if_next, Block, again, ended, broken, spent, on_targets,
  on_outcome, block_round, block_from, new_host, new_hosts, with_check_host, Made, made, unmade,
  unfinished, with_hosts, on_block, with_targets, with_from, make_upstream, Configured, configured,
  refused, out_of_fuel, new_static_upstreams,
}

-- The verification of certificates is not switched off beside certificates of its own.
pub IsCompatible : StaticUpstream → Type 0
IsCompatible u = (u.insecure_skip_verify && has_pool u.ca_cert_pool) ≡ false

-- An upstream with a host, whose hosts have no connections and no failures.
pub record IsReady (u : StaticUpstream) : Type 0 where
  pub compatible : IsCompatible u
  pub some_host : 0 < length u.hosts
  pub fresh : All (λ h. (h.conns ≡ 0) × (h.fails ≡ 0) × (h.unhealthy ≡ 0)) u.hosts

abbrev OfBlock : Block → Type 0
OfBlock (again to u d) = IsCompatible u
OfBlock (ended to u d) = IsCompatible u
OfBlock (broken e) = Unit
OfBlock spent = Unit

unless_at_odds-OfBlock : (to : List Text) (r : Outcome) → OfBlock (on_outcome to (unless_at_odds r))
unfolding IsCompatible
unless_at_odds-OfBlock to (done u d) =
    elim (Bool-cases (u.insecure_skip_verify && has_pool u.ca_cert_pool)) [
      | inl e ↦ rw e tt
      | inr e ↦ rw e e
    ]
unless_at_odds-OfBlock to (fault e) = tt

add_parsed-OfBlock :
    (u : StaticUpstream) (d : Dispenser) (t : Text) (to : List Text) (s : Bool) (r : Hosts)
    → IsCompatible u
    → OfBlock (on_targets u d (add_parsed t to s r))
add_parsed-OfBlock u d t to s (hosts hs) h = h
add_parsed-OfBlock u d t to s port_at_service h = tt
add_parsed-OfBlock u d t to s many_separators h = tt
add_parsed-OfBlock u d t to s bad_port h = tt
add_parsed-OfBlock u d t to s empty_range h = tt

upstream_arg-OfBlock :
    (to : List Text) (s : Bool) (u : StaticUpstream) (r : Dispenser × Bool)
    → IsCompatible u
    → OfBlock (upstream_arg to s u r)
upstream_arg-OfBlock to s u (d, false) h = tt
upstream_arg-OfBlock to true u (d, true) h = tt
upstream_arg-OfBlock to false u (d, true) h =
    add_parsed-OfBlock u d (val d) to false (parse_upstream (val d)) h

block_round-OfBlock :
    (o : Library) (to : List Text) (s : Bool) (u : StaticUpstream) (d : Dispenser)
    → IsCompatible u
    → OfBlock (block_round o to s u d)
unfolding block_round parse_block
block_round-OfBlock o to s u d h = elim (Bool-cases (text_eq (val d) (codes "upstream"))) [
  | inr e ↦ rw e (unless_at_odds-OfBlock to (property o s (val d) d u))
  | inl e ↦ rw e (upstream_arg-OfBlock to s u (next_arg d) h)
]

after_round-OfBlock :
    (loop : List Text → StaticUpstream → Dispenser → Block) (r : Block)
    → OfBlock r
    → ((to : List Text) (u : StaticUpstream) (d : Dispenser)
        → IsCompatible u
        → OfBlock (loop to u d))
    → OfBlock (after_round loop r)
after_round-OfBlock loop (again to u d) h g = g to u d h
after_round-OfBlock loop (ended to u d) h g = h
after_round-OfBlock loop (broken e) h g = tt
after_round-OfBlock loop spent h g = tt

if_more-OfBlock :
    (to : List Text) (u : StaticUpstream) (round : Dispenser → Block) (r : Dispenser × Bool)
    → IsCompatible u
    → ((d : Dispenser) → OfBlock (round d))
    → OfBlock (if_more to u round r)
if_more-OfBlock to u round (d, false) h g = h
if_more-OfBlock to u round (d, true) h g = g d

block_from-OfBlock :
    (f : ℕ) (o : Library) (to : List Text) (s : Bool) (u : StaticUpstream) (d : Dispenser)
    → IsCompatible u
    → OfBlock (block_from f o to s u d)
unfolding block_from
block_from-OfBlock zero o to s u d h = tt
block_from-OfBlock (suc f) o to s u d h =
    if_more-OfBlock to u
      (λ d'. after_round (λ to' u' d''. block_from f o to' s u' d'') (block_round o to s u d'))
      (next_block d) h
      λ d'.
        after_round-OfBlock (λ to' u' d''. block_from f o to' s u' d'') (block_round o to s u d')
          (block_round-OfBlock o to s u d' h) λ to' u' d'' g. block_from-OfBlock f o to' s u' d'' g

abbrev Fresh : Pool → Type 0
Fresh = All (λ h. (h.conns ≡ 0) × (h.fails ≡ 0) × (h.unhealthy ≡ 0))

abbrev OfHosts : ℕ → Option Pool → Type 0
OfHosts n none = Unit
OfHosts n (some p) = (length p ≡ n) × Fresh p

OfHosts-cons :
    (n : ℕ) (x : Option Host) (xs : Option Pool)
    → ((h : Host) → x ≡ some h → (h.conns ≡ 0) × (h.fails ≡ 0) × (h.unhealthy ≡ 0))
    → OfHosts n xs
    → OfHosts
        (suc n)
        (elim x [ none ↦ none | some h ↦ elim xs [ none ↦ none | some hs ↦ some (h ∷ hs) ] ])
OfHosts-cons n none xs h g = tt
OfHosts-cons n (some x) none h g = tt
OfHosts-cons n (some x) (some xs) h (l, g) = (omega arith, (h x refl, g))

new_host_fresh :
    (o : Library) (u : StaticUpstream) (t : Text) (h : Host)
    → new_host o u t ≡ some h
    → (h.conns ≡ 0) × (h.fails ≡ 0) × (h.unhealthy ≡ 0)
unfolding new_host
new_host_fresh o u t h e = ground arith

new_hosts-OfHosts :
    (o : Library) (u : StaticUpstream) (to : List Text) → OfHosts (length to) (new_hosts o u to)
unfolding new_hosts
new_hosts-OfHosts o u [] = (refl, tt)
new_hosts-OfHosts o u (t ∷ ts) =
    OfHosts-cons (length ts) (new_host o u t) (new_hosts o u ts) (new_host_fresh o u t)
      (new_hosts-OfHosts o u ts)

abbrev OfMade : Made → Type 0
OfMade (made u d) = IsReady u
OfMade (unmade e) = Unit
OfMade unfinished = Unit

with_check_host-IsReady :
    (host : Text) (u : StaticUpstream) → IsReady u → IsReady (with_check_host host u)
unfolding IsCompatible
with_check_host-IsReady host u r = ground arith

with_hosts-OfMade :
    (host : Text) (u : StaticUpstream) (d : Dispenser) (n : ℕ) (p : Option Pool)
    → IsCompatible u
    → 0 < n
    → OfHosts n p
    → OfMade (with_hosts host u d p)
with_hosts-OfMade host u d n none h l g = tt
with_hosts-OfMade host u d n (some p) h l (e, fr) =
    with_check_host-IsReady host (record u { hosts = p })
      (record { compatible = unfold IsCompatible in h; some_host = omega arith; fresh = fr })

on_block-OfMade : (o : Library) (host : Text) (b : Block) → OfBlock b → OfMade (on_block o host b)
on_block-OfMade o host (again to u d) h = tt
on_block-OfMade o host (broken e) h = tt
on_block-OfMade o host spent h = tt
on_block-OfMade o host (ended [] u d) h = tt
on_block-OfMade o host (ended (t ∷ ts) u d) h =
    with_hosts-OfMade host u d (suc (length ts)) (new_hosts o u (t ∷ ts)) h (omega arith)
      (new_hosts-OfHosts o u (t ∷ ts))

with_targets-OfMade :
    (f : ℕ) (o : Library) (host : Text) (u : StaticUpstream) (d : Dispenser) (r : Targets)
    → IsCompatible u
    → OfMade (with_targets f o host u d r)
with_targets-OfMade f o host u d (targets to s) h =
    on_block-OfMade o host (block_from f o to s u d) (block_from-OfBlock f o to s u d h)
with_targets-OfMade f o host u d (bad_targets e) h = tt

with_from-OfMade :
    (f : ℕ) (o : Library) (host : Text) (r : Dispenser × List Text × Bool)
    → OfMade (with_from f o host r)
with_from-OfMade f o host (d, [], true) = tt
with_from-OfMade f o host (d, [], false) = tt
with_from-OfMade f o host (d, t ∷ ts, false) = tt
with_from-OfMade f o host (d, t ∷ ts, true) =
    let (d', words) = remaining_args d in
    with_targets-OfMade f o host (record new_upstream { from = t }) d'
      (add_targets d' words [] false) (unfold IsCompatible in refl)

-- All upstreams that are returned, be it with an error.
abbrev pub AreReady : Configured → Type 0
AreReady (configured us) = All IsReady us
AreReady (refused us e) = All IsReady us
AreReady out_of_fuel = Unit

All-snoc :
    (us : List StaticUpstream) (u : StaticUpstream)
    → All IsReady us
    → IsReady u
    → All IsReady (us ++ (u ∷ []))
All-snoc [] u h r = (r, tt)
All-snoc (v ∷ us) u (h, hs) r = (h, All-snoc us u hs r)

after_directive-AreReady :
    (us : List StaticUpstream) (loop : List StaticUpstream → Dispenser → Configured) (m : Made)
    → All IsReady us
    → OfMade m
    → ((us' : List StaticUpstream) (d : Dispenser) → All IsReady us' → AreReady (loop us' d))
    → AreReady (after_directive us loop m)
after_directive-AreReady us loop (made u d) h r g = g (us ++ (u ∷ [])) d (All-snoc us u h r)
after_directive-AreReady us loop (unmade e) h r g = h
after_directive-AreReady us loop unfinished h r g = tt

if_next-AreReady :
    (us : List StaticUpstream) (round : Dispenser → Configured) (r : Dispenser × Bool)
    → All IsReady us
    → ((d : Dispenser) → AreReady (round d))
    → AreReady (if_next us round r)
if_next-AreReady us round (d, false) h g = h
if_next-AreReady us round (d, true) h g = g d

-- Every upstream that the proxy directive configures, also before an error, has a host; its hosts
-- have no connections and no failures and count as healthy; and it does not switch the
-- verification of certificates off while it has certificates of its own.
pub new_static_upstreams-AreReady :
    (f : ℕ) (o : Library) (host : Text) (us : List StaticUpstream) (d : Dispenser)
    → All IsReady us
    → AreReady (new_static_upstreams f o host us d)
unfolding new_static_upstreams make_upstream
new_static_upstreams-AreReady zero o host us d h = tt
new_static_upstreams-AreReady (suc f) o host us d h =
    let loop =
      λ (us' : List StaticUpstream) (d'' : Dispenser). new_static_upstreams f o host us' d'' in
    if_next-AreReady us (λ d'. after_directive us loop (make_upstream f o host d')) (next d) h
      λ d'.
        after_directive-AreReady us loop (make_upstream f o host d') h
          (with_from-OfMade f o host (args d' ([] ∷ [])))
          λ us' d'' g. new_static_upstreams-AreReady f o host us' d'' g
