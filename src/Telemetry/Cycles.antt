-- ===== src/Telemetry/Cycles.antt =====
-- How often the telemetry is sent, in any order of the calls.
use iotacaddy.Prelude.{
  ℕ, suc, ◌+◌, ◌≤◌, Bool, true, false, not, ◌&&◌, Option, none, some, ◌≡◌, if◌then◌else◌, arith,
}
use iotacaddy.Iota.Int.{ℤ}
use iotacaddy.Telemetry.Sending.{Reply, transmit, interval}
use iotacaddy.Telemetry.Emission.{
  Timer, unset, fired, armed, Emitter, Next, went, crashed, is_armed, start_emitting, stop_emitting,
  fire, Metrics, begin, stop_update_timer, take_buffer, set_emit_time_metrics, reschedule,
  with_disabled, finish, Step, stops, fires, fires_lost, begins, begins_last, ends, collects, Runs,
  here, start, next,
}

abbrev one_if : Bool → ℕ
one_if b = if b then 1 else 0

abbrev repeats : Option Bool → ℕ
repeats none = 0
repeats (some final) = one_if (not final)

-- The timers that are to fire, the calls of `emit` that they and `StartEmitting` made, and the
-- update in progress, unless it is the last one.
abbrev pub cycles : Emitter → ℕ
cycles e = one_if (is_armed e.timer) + (e.lost_timers + (e.entering + repeats e.updating))

abbrev pub cycles_of : Next → ℕ
cycles_of (went e) = cycles e
cycles_of crashed = 0

stop_emitting-cycles : (e : Emitter) → cycles_of (stop_emitting e) ≤ cycles e
unfolding stop_emitting
stop_emitting-cycles e = ground arith

fire-cycles : (e : Emitter) (t : ℤ) → e.timer ≡ armed t → cycles (fire e) ≤ cycles e
unfolding fire
fire-cycles e t h = rw h (omega arith)

begin-cycles : (m : Metrics) (e : Emitter) → cycles_of (begin m false e) ≤ suc (cycles e)
unfolding begin
begin-cycles m e = ground arith

stop_update_timer-cycles :
    (m : Metrics) (e : Emitter) (t : Timer)
    → cycles_of (take_buffer m (stop_update_timer (record e { updating = some true }) t))
      ≤ e.lost_timers + e.entering
stop_update_timer-cycles m e unset = omega arith
stop_update_timer-cycles m e fired = ground arith
stop_update_timer-cycles m e (armed t) = ground arith

last-cycles : (m : Metrics) (e : Emitter) → cycles_of (begin m true e) ≤ cycles e
unfolding begin
last-cycles m e = ground (
  arith,
  stop_update_timer-cycles m (record e { telemetry = set_emit_time_metrics m e.telemetry }) e.timer,
)

reschedule-cycles :
    (final : Bool) (stop : Bool) (t : ℤ) (e : Emitter)
    → cycles (reschedule (not final && not stop) t (record e { updating = none }))
      ≤ cycles (record e { updating = some final })
reschedule-cycles true stop t e = omega arith
reschedule-cycles false true t e = omega arith
reschedule-cycles false false t e = ground arith

finish-cycles :
    (final : Bool) (server : ℕ → Reply) (variance : ℕ) (e : Emitter)
    → e.updating ≡ some final
    → cycles (finish final server variance e) ≤ cycles e
unfolding finish
finish-cycles final server variance e h =
    let s = transmit final server e.disabled in
    rw h (
      reschedule-cycles final s.reply.stop (interval variance s.reply) (with_disabled s.disabled e))

start_emitting-cycles : (e : Emitter) → cycles_of (start_emitting e) ≤ suc (cycles e)
unfolding start_emitting
start_emitting-cycles e = ground arith

Step-cycles : (e : Emitter) (v : Next) → Step e v → cycles_of v ≤ cycles e
Step-cycles e v (stops h) = rw h (stop_emitting-cycles e)
Step-cycles e v (fires t a h) = rw h (fire-cycles e t a)
Step-cycles e v (fires_lost n a h) = rw h (omega arith)
Step-cycles e v (begins m n a h) =
    let l = begin-cycles m (record e { entering = n }) in rw (h, a) (omega arith)
Step-cycles e v (begins_last m n a h) =
    let l = last-cycles m (record e { stopping = n }) in rw h (omega arith)
Step-cycles e v (ends final server variance a h) = rw h (finish-cycles final server variance e a)
Step-cycles e v (collects c h) = rw h (omega arith)

-- In whatever order calls, timers and updates take their steps, `n` calls of `StartEmitting` add at
-- most `n` to the number of cycles of updates; no other step adds one.
pub Runs-cycles : (e : Emitter) (n : ℕ) (v : Next) → Runs e n v → cycles_of v ≤ n + cycles e
Runs-cycles e n v here = omega arith
Runs-cycles e n v (start {n = k} {u} r) =
    omega (arith, Runs-cycles e k (went u) r, start_emitting-cycles u)
Runs-cycles e n v (next {u = u} r s) = omega (arith, Runs-cycles e n (went u) r, Step-cycles u v s)
