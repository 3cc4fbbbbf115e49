-- ===== src/Proxy/Tests.antt =====
-- The handler of the reverse proxy at a concrete upstream, and its theorems there.
use iotacaddy.Prelude.{
  ℕ, suc, true, Option, none, some, [], ◌∷◌, ◌≡◌, refl, codes, text_eq, if◌then◌else◌, ◌==◌,
}
use iotacaddy.EnvVars.Defs.{has_prefix}
use iotacaddy.Conditions.Defs.{has_suffix}
use iotacaddy.Proxy.Defs.{
  byte_length, PathOps, matches, Store, Upstream, failed, match, match_from, Outside, World, Answer,
  answer, retry_from, pass, change, due_store, waiting, remember, call, after_call, attempt, round,
  keep_retrying,
}
use iotacaddy.Proxy.Match.{Found, match-Found}

abbrev ops : PathOps
ops = record { clean = λ p. p; to_lower = λ p. p; case_sensitive = true }

-- The first of two hosts without failures.
abbrev first_healthy : ℕ → Store → ℕ × Option ℕ
first_healthy n store =
    (suc n, if (store 0).fails == 0 then some 0 else if (store 1).fails == 0 then some 1 else none)

abbrev upstream : Upstream ℕ
upstream = record {
  from = codes "/api";
  allowed_path = λ p. true;
  host_count = 2;
  try_duration = 10;
  try_interval = 4;
  select = first_healthy;
}

abbrev root : Upstream ℕ
root = record upstream { from = codes "/" }

-- The first host fails, and the second answers.
abbrev outside : Outside
outside = record {
  fail_timeout = λ i. 3;
  has_proxy = λ i. true;
  reads_body = true;
  rewinds = λ n. true;
  backend = λ n i. if i == 0 then some (failed 7) else none;
  took = λ n. 1;
  late = λ n. 0;
}

abbrev world : World ℕ
world = record {
  policy = 0;
  store = λ i. record { conns = 2; fails = 0 };
  timers = [];
  now = 100;
  attempts = 0;
}

abbrev all_fail : Outside
all_fail = record outside { backend = λ n i. some (failed 7) }

two_rounds_spent : (retry_from 2 all_fail upstream 100 none world).1 ≡ Answer.unfinished
unfolding retry_from round attempt after_call remember call keep_retrying pass change due_store
    waiting
two_rounds_spent = refl

time_runs_out : (retry_from 4 all_fail upstream 100 none world).1 ≡ answer 502 (some (failed 7))
unfolding retry_from round attempt after_call remember call keep_retrying pass change due_store
    waiting
time_runs_out = refl

most_specific : match ops (codes "/api/x") (root ∷ upstream ∷ []) ≡ some upstream
unfolding match match_from matches text_eq has_prefix has_suffix byte_length
most_specific = refl

match-Found_example :
    Found ops
      (codes "/api/x")
      0
      none
      (root ∷ upstream ∷ [])
      (match ops (codes "/api/x") (root ∷ upstream ∷ []))
match-Found_example = match-Found ops (codes "/api/x") (root ∷ upstream ∷ [])
