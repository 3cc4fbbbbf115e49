-- ===== src/Proxy/Counts.antt =====
-- The counters of the hosts while caddyhttp/proxy/proxy.go serves a request.
use iotacaddy.Prelude.{ℕ, ◌+◌, List, [], ◌∷◌, ◌≡◌, if◌then◌else◌, ◌==◌}
use iotacaddy.Proxy.Defs.{Store, Timer, World}

-- How many of the timers are for a host.
abbrev pub pending : ℕ → List Timer → ℕ
pending i [] = 0
pending i (t ∷ ts) = (if t.host == i then 1 else 0) + pending i ts

module _ {S : Type 0} where
  -- The counters are those of `base`, but for the failures that timers will take back.
  pub Balanced : Store → World S → Type 0
  Balanced base w =
      (i : ℕ)
      → ((w.store i).conns ≡ (base i).conns)
        × ((w.store i).fails ≡ (base i).fails + pending i w.timers)
