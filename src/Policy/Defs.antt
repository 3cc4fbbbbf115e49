-- ===== src/Policy/Defs.antt =====
-- The load balancing policies of caddyhttp/proxy/policy.go. `rand.Int` is a stream of draws, one
-- for each call; the counters of a policy are 32-bit words.
use Prim.Native.Nat.{bit_xor}
use iotacaddy.Prelude.{
  ℕ, zero, suc, ◌+◌, ◌-◌, ◌*◌, ◌%◌, ◌^◌, Bool, false, not, ◌&&◌, ◌||◌, Option, none, some, List, [],
  ◌∷◌, ltb, leb, ◌==◌, if◌then◌else◌, Text, length, get_elem?,
}
use iotacaddy.Lexer.Defs.{is_nil}
use iotacaddy.Net.{split_host_port}

-- `UpstreamHost`, with the fields that selection reads. `check_down` is `CheckDown`, which
-- looks at the counters; a `max_conns` below 0 acts as 0.
pub record Host : Type 0 where
  pub name : Text
  pub conns : ℕ
  pub max_conns : ℕ
  pub fails : ℕ
  pub unhealthy : ℕ
  pub check_down : Option (ℕ → ℕ → Bool)

unfoldable pub is_down : Host → Bool
is_down h = elim h.check_down [
  | none ↦ not (h.unhealthy == 0) || ltb 0 h.fails
  | some check ↦ check h.unhealthy h.fails
]

unfoldable pub is_full : Host → Bool
is_full h = ltb 0 h.max_conns && leb h.max_conns h.conns

unfoldable pub available : Host → Bool
unfolding is_down is_full
available h = not (is_down h) && not (is_full h)

abbrev pub Pool : Type 0
Pool = List Host

abbrev pub Draws : Type 0
Draws = ℕ → ℕ

-- The loop of `Random.Select`. A draw is made for an available host only, so `count` also says
-- which draw is the next.
unfoldable pub random_from : Draws → ℕ → Option Host → Pool → Option Host
random_from draws count best [] = best
random_from draws count best (h ∷ hs) =
    let count' = if available h then suc count else count in
    let best' = if available h && draws count % suc count == 0 then some h else best in
    random_from draws count' best' hs

unfoldable pub select_random : Draws → Pool → Option Host
unfolding random_from
select_random draws pool = random_from draws 0 none pool

abbrev pub max_int64 : ℕ
max_int64 = 2 ^ 63 - 1

-- The variables of `LeastConn.Select`, with the number of draws made.
pub record Least : Type 0 where
  pub best : Option Host
  pub count : ℕ
  pub least : ℕ
  pub drawn : ℕ

-- The first `if` of a round.
unfoldable pub lower_least : Host → Least → Least
lower_least h s = if ltb h.conns s.least then record s { least = h.conns; count = 0 } else s

-- The second: a draw among the hosts that have the least.
unfoldable pub draw_least : Draws → Host → Least → Least
draw_least draws h s =
    if h.conns == s.least
    then record s {
      count = suc s.count;
      drawn = suc s.drawn;
      best = if draws s.drawn % suc s.count == 0 then some h else s.best;
    }
    else s

unfoldable pub least_from : Draws → Least → Pool → Least
least_from draws s [] = s
least_from draws s (h ∷ hs) =
    least_from draws (if available h then draw_least draws h (lower_least h s) else s) hs

unfoldable pub select_least_conn : Draws → Pool → Option Host
unfolding least_from
select_least_conn draws pool =
    (least_from draws (record { best = none; count = 0; least = max_int64; drawn = 0 }) pool).best

abbrev pub u32_mod : ℕ
u32_mod = 2 ^ 32

-- `uint32(len(pool))`.
abbrev pub pool_len : Pool → ℕ
pool_len pool = length pool % u32_mod

-- What a selection may do.
pub data Choice : Type 0 where
  chosen : Host → Choice
  nobody : Choice
  crash : Choice

-- A round: the host at the counter, if it is available, or else what the later rounds give. An
-- index out of range panics.
abbrev pub robin_pick : ℕ → ℕ × Choice → Option Host → ℕ × Choice
robin_pick robin rest none = (robin, crash)
robin_pick robin rest (some h) = if available h then (robin, chosen h) else rest

-- The loop of `RoundRobin.Select`, with the rounds that are left and the length of the pool: the
-- counter as it is left, and the choice.
unfoldable pub robin_from : ℕ → ℕ → Pool → ℕ → ℕ × Choice
robin_from zero len pool robin = (robin, nobody)
robin_from (suc n) len pool robin =
    let robin' = (robin + 1) % u32_mod in
    robin_pick robin' (robin_from n len pool robin') (get_elem? pool (robin' % len))

unfoldable pub select_round_robin : Pool → ℕ → ℕ × Choice
unfolding robin_from
select_round_robin pool robin = robin_from (pool_len pool) (pool_len pool) pool robin

-- `hash`: FNV-1a, 32 bits, over bytes.
unfoldable pub fnv_from : ℕ → Text → ℕ
fnv_from h [] = h
fnv_from h (b ∷ bs) = fnv_from (bit_xor h b * 16777619 % u32_mod) bs

unfoldable pub hash : Text → ℕ
unfolding fnv_from
hash = fnv_from 2166136261

abbrev pub hash_pick : Choice → Option Host → Choice
hash_pick rest none = crash
hash_pick rest (some h) = if available h then chosen h else rest

-- The loop of `hostByHashing`: round `i` of those that are left adds `i` to the index.
unfoldable pub hash_from : ℕ → ℕ → ℕ → ℕ → Pool → Choice
hash_from zero len i index pool = nobody
hash_from (suc n) len i index pool =
    let index' = (index + i) % u32_mod in
    hash_pick (hash_from n len (suc i) index' pool) (get_elem? pool (index' % len))

-- `hostByHashing`; the remainder by the length 0 panics.
unfoldable pub host_by_hashing : Pool → Text → Choice
unfolding hash_from
host_by_hashing pool s =
    if pool_len pool == 0
    then crash
    else hash_from (pool_len pool) (pool_len pool) 0 (hash s % pool_len pool) pool

unfoldable pub select_first : Pool → Option Host
select_first [] = none
select_first (h ∷ hs) = if available h then some h else select_first hs

-- What the policies read of a request.
pub record Request : Type 0 where
  pub remote_addr : Text
  pub request_uri : Text
  pub header : Text → Text

unfoldable pub client_ip : Request → Text
client_ip r = elim (split_host_port r.remote_addr) [
  | none ↦ r.remote_addr
  | some (host, port) ↦ host
]

pub data Policy : Type 0 where
  random least_conn round_robin ip_hash first uri_hash : Policy
  header : Text → Policy

-- The counters: that of the upstream's own `RoundRobin`, and the package's `roundRobinPolicier`.
pub record Counters : Type 0 where
  pub own : ℕ
  pub shared : ℕ

abbrev pub choice : Option Host → Choice
choice none = nobody
choice (some h) = chosen h

unfoldable pub select : Policy → Draws → Pool → Request → Counters → Counters × Choice
unfolding client_ip
select random draws pool r c = (c, choice (select_random draws pool))
select least_conn draws pool r c = (c, choice (select_least_conn draws pool))
select round_robin draws pool r c =
    let (robin, h) = select_round_robin pool c.own in (record c { own = robin }, h)
select ip_hash draws pool r c = (c, host_by_hashing pool (client_ip r))
select uri_hash draws pool r c = (c, host_by_hashing pool r.request_uri)
select first draws pool r c = (c, choice (select_first pool))
select (header name) draws pool r c =
    if is_nil name
    then (c, nobody)
    else if is_nil (r.header name)
    then (let (robin, h) = select_round_robin pool c.shared in (record c { shared = robin }, h))
    else (c, host_by_hashing pool (r.header name))

unfoldable pub some_available : Pool → Bool
some_available [] = false
some_available (h ∷ hs) = available h || some_available hs

abbrev pub or_random : Option Policy → Policy
or_random none = random
or_random (some p) = p

-- `staticUpstream.Select`; no policy acts as `Random`.
unfoldable pub upstream_select :
    Option Policy → Draws → Pool → Request → Counters → Counters × Choice
upstream_select p draws (h ∷ []) r c = (c, if available h then chosen h else nobody)
upstream_select p draws [] r c = (c, nobody)
upstream_select p draws (h ∷ g ∷ hs) r c =
    if not (some_available (h ∷ g ∷ hs))
    then (c, nobody)
    else select (or_random p) draws (h ∷ g ∷ hs) r c
