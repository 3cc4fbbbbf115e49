-- ===== src/Telemetry/Tests.antt =====
-- The telemetry buffer at concrete calls, and its theorems where their hypotheses hold.
use iotacaddy.Prelude.{
  ℕ, zero, suc, ◌+◌, ◌*◌, ◌≤◌, Bool, true, false, none, some, List, [], ◌∷◌, ◌≡◌, refl, Text, codes,
  text_eq, arith,
}
use iotacaddy.Net.{position}
use iotacaddy.Telemetry.Defs.{
  other, put, counting_set, lookup, Telemetry, check_key, is_disabled, Call, append_call,
  append_unique_call, add_call, run_all, max_buffer_items,
}
use iotacaddy.Iota.Int.{ℤ, pos, less, atoi}
use iotacaddy.Conditions.Defs.{contains}
use iotacaddy.EnvVars.Defs.{has_prefix, index}
use iotacaddy.Telemetry.Sending.{
  Response, Reply, no_reply, replied, second, accept, send, attempts, transmit, enable_keys,
  disable_keys, remove,
}
use iotacaddy.Telemetry.Emission.{
  unset, fired, armed, Emitter, Next, went, Metrics, is_armed, init, start_emitting, stop_emitting,
  set_emit_time_metrics, begin, finish, Runs, here, start,
}
use iotacaddy.Telemetry.Cycles.{cycles, cycles_of, Runs-cycles}
use iotacaddy.Telemetry.Stopping.{
  IsAtRest, StaysQuiet, stop_and_wait, stop_and_wait-IsQuiet, last_update,
}
use iotacaddy.Telemetry.Schedule.{Continues, finish-Continues}
use iotacaddy.Telemetry.Disabling.{IsPermanent, Spares, finish-IsPermanent}
use iotacaddy.Telemetry.Bounds.{IsBounded, run_all-IsBounded}

abbrev directive_set : List (Text × ℕ)
directive_set = (codes "tls", 1) ∷ []

-- The key `ua` is disabled; `directives` holds one directive.
abbrev state : Telemetry
state = record {
  enabled = true;
  disabled = codes "ua" ∷ [];
  buffer = (codes "directives", counting_set directive_set) ∷ [];
  item_count = 1;
}

abbrev calls : List Call
calls =
    append_unique_call (codes "directives") (codes "proxy")
    ∷ append_call (codes "ua:x") (codes "curl")
    ∷ add_call (codes "requests") 1 0
    ∷ []

run_all-IsBounded_example : IsBounded max_buffer_items (run_all calls state)
run_all-IsBounded_example =
    run_all-IsBounded calls state (record { keys_counted = omega arith; in_limit = omega arith })

-- The user has disabled `ua`; nothing is sent yet.
abbrev idle : Emitter
idle = record {
  telemetry = state;
  disabled = (codes "ua", false) ∷ [];
  updating = none;
  timer = unset;
  lost_timers = 0;
  entering = 0;
  stopping = 0;
}

abbrev metrics : Metrics
metrics = record {
  encodes = λ b. true;
  goroutines = other (codes "7");
  heap_alloc = codes "9";
  sys = codes "10";
}

-- The first request fails; the second is answered, with the next update in a minute.
abbrev decoded : Response → Response × Bool
decoded r = (record r { next_update = pos (60 * second); enable_keys = codes "ua" ∷ [] }, true)

abbrev server : ℕ → Reply
server zero = no_reply
server (suc i) = replied 200 (codes "application/json") [] decoded

sent_at_the_second_try : (transmit false server idle.disabled).slept ≡ pos (8 * second) ∷ []
unfolding transmit attempts send accept contains has_prefix index text_eq enable_keys disable_keys
sent_at_the_second_try = refl

-- Four times too early is no failure.
abbrev busy : ℕ → Reply
busy i = replied 429 (codes "application/json") (codes "1") (λ r. (r, true))

four_times_too_early : (transmit false busy idle.disabled).failure ≡ none
unfolding transmit attempts send accept contains has_prefix index text_eq enable_keys disable_keys
four_times_too_early = refl

-- A metric that is disabled for good, then by the server, then enabled by it.
enabled_in_the_end :
    lookup
      (codes "ua")
      (enable_keys (codes "ua" ∷ []) (disable_keys (codes "ua" ∷ []) idle.disabled))
    ≡ none
unfolding lookup enable_keys disable_keys text_eq put remove
enabled_in_the_end = refl

already_initialized : init (λ k. k) (codes "id") [] idle ≡ Next.crashed
unfolding init
already_initialized = refl

Runs-cycles_example : cycles_of (start_emitting idle) ≤ 1 + cycles idle
Runs-cycles_example = Runs-cycles idle 1 (start_emitting idle) (start here)

-- A timer is set.
abbrev waiting : Emitter
waiting = record idle { timer = armed (pos second) }

waiting-IsAtRest : IsAtRest waiting
waiting-IsAtRest = record {
  is_enabled = refl;
  some_timer = refl;
  no_lost = refl;
  none_entering = refl;
  none_stopping = refl;
  none_updating = refl;
}

stop_and_wait-IsQuiet_example :
    (u : Emitter) × (stop_and_wait metrics server 5 waiting ≡ went u)
    × (u.telemetry.buffer ≡ [])
    × (true ≡ true → u.disabled ≡ (transmit true server idle.disabled).disabled)
    × ((v : Next) → Runs u 0 v → StaysQuiet v)
stop_and_wait-IsQuiet_example = stop_and_wait-IsQuiet metrics server 5 waiting waiting-IsAtRest

-- The timer has fired, and the update is in progress.
abbrev updating : Emitter
updating = record idle { timer = fired; updating = some false }

-- `StopEmitting` returns while the update goes on, which then sets the timer again.
stop_is_skipped :
    stop_emitting updating ≡ went (record updating { stopping = 1 })
    × (last_update metrics 1 (record updating { stopping = 1 })
        ≡ went (record updating { telemetry = set_emit_time_metrics metrics state }))
    × (is_armed (finish false busy 5 updating).timer ≡ true)
unfolding stop_emitting begin finish transmit attempts send accept contains has_prefix index text_eq
    enable_keys disable_keys less atoi
stop_is_skipped = (refl, refl, refl)

server-Continues : (i : ℕ) → Continues (server i)
server-Continues zero = tt
server-Continues (suc i) = (omega arith, omega arith, λ r h. h)

finish-Continues_example :
    (t : ℤ) × ((finish false server 5 updating).timer ≡ armed t)
    × ((finish false server 5 updating).updating ≡ none)
    × (less t (pos second) ≡ false)
finish-Continues_example = finish-Continues server 5 updating server-Continues

server-Spares : (i : ℕ) → Spares (codes "ua") (server i)
server-Spares zero = tt
server-Spares (suc i) = λ r h. h

finish-IsPermanent_example :
    IsPermanent (codes "ua") (finish false server 5 updating).disabled
    × (is_disabled (codes "ua:x") (finish false server 5 updating).telemetry ≡ true)
unfolding check_key position lookup text_eq
finish-IsPermanent_example =
    finish-IsPermanent (codes "ua") (codes "ua:x") false server 5 updating refl server-Spares refl
