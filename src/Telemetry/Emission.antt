-- ===== src/Telemetry/Emission.antt =====
-- `Init`, `StartEmitting`, `StopEmitting` and `emit` of telemetry/collection.go and
-- telemetry/telemetry.go as steps on the variables of the package. What a call does under a mutex,
-- and the tests it makes before it starts something, are one step.
use iotacaddy.Prelude.{
  ℕ, suc, Bool, true, false, not, ◌&&◌, ◌||◌, Option, none, some, List, [], ◌∷◌, map, if◌then◌else◌,
  Text, codes, text_eq, ◌≡◌,
}
use iotacaddy.Lexer.Defs.{is_nil}
use iotacaddy.Iota.Int.{ℤ}
use iotacaddy.Telemetry.Defs.{Value, Telemetry, put, set, set_nested, reset, Call, run}
use iotacaddy.Telemetry.Sending.{Reply, Disabled, transmit, interval}

-- `updateTimer`: nil, a timer that has fired, or one that is to fire after a duration.
pub data Timer : Type 0 where
  unset fired : Timer
  armed : ℤ → Timer

-- The update in progress says whether it is the last one. A timer may be running that
-- `updateTimer` no longer points to. Calls of `emit` wait to enter, those of `StopEmitting` apart.
pub record Emitter : Type 0 where
  pub telemetry : Telemetry
  pub disabled : Disabled
  pub updating : Option Bool
  pub timer : Timer
  pub lost_timers : ℕ
  pub entering : ℕ
  pub stopping : ℕ

pub data Next : Type 0 where
  went : Emitter → Next
  crashed : Next

-- The keys go to the calls that collect.
abbrev pub with_disabled : Disabled → Emitter → Emitter
with_disabled m e = record e {
  disabled = m;
  telemetry = record e.telemetry { disabled = map (λ p. p.0) m };
}

unfoldable pub disable_for_good : (Text → Text) → List Text → Disabled → Disabled
disable_for_good trim [] m = m
disable_for_good trim (k ∷ ks) m = disable_for_good trim ks (put (trim k) false m)

-- `Init`, with `strings.TrimSpace`.
unfoldable pub init : (Text → Text) → Text → List Text → Emitter → Next
init trim id keys e =
    if e.telemetry.enabled
    then crashed
    else if is_nil id || text_eq id (codes "00000000-0000-0000-0000-000000000000")
    then crashed
    else (let e' = with_disabled (disable_for_good trim keys e.disabled) e in
        went (record e' { telemetry = record e'.telemetry { enabled = true } }))

abbrev pub is_unset : Timer → Bool
is_unset unset = true
is_unset fired = false
is_unset (armed t) = false

abbrev pub in_progress : Option Bool → Bool
in_progress none = false
in_progress (some _) = true

unfoldable pub start_emitting : Emitter → Next
start_emitting e =
    if not e.telemetry.enabled
    then went e
    else if not (is_unset e.timer)
    then crashed
    else if in_progress e.updating
    then crashed
    else went (record e { entering = suc e.entering })

unfoldable pub stop_emitting : Emitter → Next
stop_emitting e =
    if not e.telemetry.enabled
    then went e
    else if is_unset e.timer
    then went e
    else went (record e { stopping = suc e.stopping })

-- The function of the timer calls `emit`.
unfoldable pub fire : Emitter → Emitter
fire e = record e { timer = fired; entering = suc e.entering }

-- The number of goroutines and the use of memory for `setEmitTimeMetrics`, and whether
-- `json.Marshal` can encode a buffer.
pub record Metrics : Type 0 where
  pub encodes : List (Text × Value) → Bool
  pub goroutines : Value
  pub heap_alloc : Text
  pub sys : Text

unfoldable pub set_emit_time_metrics : Metrics → Telemetry → Telemetry
set_emit_time_metrics m t = set_nested (codes "memory") (codes "sys") m.sys (
    set_nested (codes "memory") (codes "heap_alloc") m.heap_alloc
      (set (codes "goroutines") m.goroutines t))

-- `stopUpdateTimer`, for the last update. To stop no timer is a panic.
abbrev pub stop_update_timer : Emitter → Timer → Next
stop_update_timer e unset = crashed
stop_update_timer e fired = went (record e { timer = unset })
stop_update_timer e (armed t) = went (record e { timer = unset })

-- `makePayloadAndResetBuffer`. If the payload cannot be encoded, the update is over.
abbrev pub take_buffer : Metrics → Next → Next
take_buffer m (went e) =
    let (t, buffer) = reset e.telemetry in
    went (record e { telemetry = t; updating = if m.encodes buffer then e.updating else none })
take_buffer m crashed = crashed

abbrev pub enter : Metrics → Bool → Emitter → Next
enter m final e =
    let e' = record e { updating = some final } in
    take_buffer m (if final then stop_update_timer e' e.timer else went e')

-- `emit` up to the payload. An update in progress makes it return.
unfoldable pub begin : Metrics → Bool → Emitter → Next
begin m final e =
    if not e.telemetry.enabled
    then went e
    else (let e' = record e { telemetry = set_emit_time_metrics m e.telemetry } in
        if in_progress e.updating then went e' else enter m final e')

abbrev pub is_armed : Timer → Bool
is_armed unset = false
is_armed fired = false
is_armed (armed t) = true

abbrev pub schedule : ℤ → Emitter → Emitter
schedule t e = record e {
  timer = armed t;
  lost_timers = if is_armed e.timer then suc e.lost_timers else e.lost_timers;
}

abbrev pub reschedule : Bool → ℤ → Emitter → Emitter
reschedule false t e = e
reschedule true t e = schedule t e

-- `emit` from the payload on.
unfoldable pub finish : Bool → (ℕ → Reply) → ℕ → Emitter → Emitter
finish final server variance e =
    let s = transmit final server e.disabled in
    let e' = record (with_disabled s.disabled e) { updating = none } in
    reschedule (not final && not s.reply.stop) (interval variance s.reply) e'

-- The steps that are not a call of `StartEmitting`.
pub data Step (e : Emitter) (v : Next) : Type 0 where
  stops : v ≡ stop_emitting e → Step e v
  fires : (t : ℤ) → e.timer ≡ armed t → v ≡ went (fire e) → Step e v
  fires_lost :
      (n : ℕ)
      → e.lost_timers ≡ suc n
      → v ≡ went (record e { lost_timers = n; entering = suc e.entering })
      → Step e v
  begins :
      (m : Metrics) (n : ℕ)
      → e.entering ≡ suc n
      → v ≡ begin m false (record e { entering = n })
      → Step e v
  begins_last :
      (m : Metrics) (n : ℕ)
      → e.stopping ≡ suc n
      → v ≡ begin m true (record e { stopping = n })
      → Step e v
  ends :
      (final : Bool) (server : ℕ → Reply) (variance : ℕ)
      → e.updating ≡ some final
      → v ≡ went (finish final server variance e)
      → Step e v
  collects : (c : Call) → v ≡ went (record e { telemetry = run c e.telemetry }) → Step e v

-- What can come after `n` calls of `StartEmitting`, in any order of the steps.
pub data Runs (e : Emitter) : ℕ → Next → Type 0 where
  here : Runs e 0 (went e)
  start : {n : ℕ} {u : Emitter} → Runs e n (went u) → Runs e (suc n) (start_emitting u)
  next : {n : ℕ} {u : Emitter} {v : Next} → Runs e n (went u) → Step u v → Runs e n v
