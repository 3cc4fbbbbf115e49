-- ===== src/Policy/Tests.antt =====
-- The load balancing policies at concrete pools, and their theorems where their hypotheses hold.
use iotacaddy.Prelude.{none, some, [], ◌∷◌, ◌≡◌, refl, codes, arith}
use iotacaddy.Policy.Defs.{
  Host, is_down, is_full, available, Pool, Draws, lower_least, draw_least, select_least_conn,
  Request, Counters, upstream_select, some_available,
}
use iotacaddy.Policy.Sampling.{IsCandidate, IsLeast, Selects, select_least_conn-Selects}
use iotacaddy.Policy.Hashing.{Chooses, upstream_select-Chooses}

abbrev busy : Host
busy = record {
  name = codes "busy";
  conns = 7;
  max_conns = 9;
  fails = 0;
  unhealthy = 0;
  check_down = none;
}

abbrev idle : Host
idle = record {
  name = codes "idle";
  conns = 1;
  max_conns = 0;
  fails = 0;
  unhealthy = 0;
  check_down = none;
}

abbrev failing : Host
failing = record {
  name = codes "failing";
  conns = 0;
  max_conns = 0;
  fails = 2;
  unhealthy = 0;
  check_down = none;
}

abbrev pool : Pool
pool = failing ∷ busy ∷ idle ∷ []

abbrev draws : Draws
draws n = n

abbrev request : Request
request = record { remote_addr = codes "10.0.0.7:4000"; request_uri = codes "/"; header = λ n. [] }

abbrev counters : Counters
counters = record { own = 0; shared = 0 }

selects_idle : select_least_conn draws pool ≡ some idle
unfolding select_least_conn draw_least lower_least available is_down is_full
selects_idle = refl

select_least_conn-Selects_example :
    Selects
      (λ h. IsCandidate pool h × IsLeast h pool)
      (some_available pool)
      (select_least_conn draws pool)
select_least_conn-Selects_example =
    select_least_conn-Selects draws pool (omega arith, (omega arith, (omega arith, tt)))

upstream_select-Chooses_example :
    Chooses (IsCandidate pool) (upstream_select none draws pool request counters).1
upstream_select-Chooses_example =
    upstream_select-Chooses none draws pool request counters (omega arith)
      (omega arith, (omega arith, (omega arith, tt)))
