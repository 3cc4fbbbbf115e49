-- ===== src/Telemetry/Stopping.antt =====
-- What `StopEmitting` in telemetry/collection.go does to the updates.
use iotacaddy.Prelude.{
  ℕ, zero, suc, Bool, true, false, none, some, List, [], ◌≡◌, refl, Text, if◌then◌else◌, arith,
}
use iotacaddy.Telemetry.Defs.{Value, reset}
use iotacaddy.Telemetry.Sending.{Reply, transmit}
use iotacaddy.Telemetry.Emission.{
  Timer, unset, fired, armed, Emitter, Next, went, crashed, is_unset, stop_update_timer,
  stop_emitting, Metrics, set_emit_time_metrics, begin, finish, Step, stops, fires, fires_lost,
  begins, begins_last, ends, collects, Runs, here, next,
}

-- Nothing is sent, and nothing waits to send.
pub record IsQuiet (e : Emitter) : Type 0 where
  pub unset_timer : e.timer ≡ unset
  pub no_lost : e.lost_timers ≡ 0
  pub none_entering : e.entering ≡ 0
  pub none_stopping : e.stopping ≡ 0
  pub none_updating : e.updating ≡ none

abbrev pub StaysQuiet : Next → Type 0
StaysQuiet (went e) = IsQuiet e
StaysQuiet crashed = ⊥

stop_emitting-unset : (e : Emitter) → e.timer ≡ unset → stop_emitting e ≡ went e
unfolding stop_emitting
stop_emitting-unset e h = rw h (ground arith)

stop_emitting-StaysQuiet : (e : Emitter) → IsQuiet e → StaysQuiet (stop_emitting e)
stop_emitting-StaysQuiet e q = rw (stop_emitting-unset e q.unset_timer) q

Step-StaysQuiet : (e : Emitter) (v : Next) → IsQuiet e → Step e v → StaysQuiet v
Step-StaysQuiet e v q (stops h) = rw h (stop_emitting-StaysQuiet e q)
Step-StaysQuiet e v q (fires t a h) = absurd (let b = q.unset_timer in cc)
Step-StaysQuiet e v q (fires_lost n a h) = absurd (let b = q.no_lost in omega arith)
Step-StaysQuiet e v q (begins m n a h) = absurd (let b = q.none_entering in omega arith)
Step-StaysQuiet e v q (begins_last m n a h) = absurd (let b = q.none_stopping in omega arith)
Step-StaysQuiet e v q (ends final server variance a h) = absurd (let b = q.none_updating in cc)
Step-StaysQuiet e v q (collects c h) = rw h (record {
  unset_timer = q.unset_timer;
  no_lost = q.no_lost;
  none_entering = q.none_entering;
  none_stopping = q.none_stopping;
  none_updating = q.none_updating;
})

Runs-StaysQuiet : (e : Emitter) (v : Next) → IsQuiet e → Runs e 0 v → StaysQuiet v
Runs-StaysQuiet e v q here = q
Runs-StaysQuiet e v q (next {u = u} r s) = Step-StaysQuiet u v (Runs-StaysQuiet e (went u) q r) s

-- A call of `StopEmitting` while a timer is set and nothing else is on its way.
pub record IsAtRest (e : Emitter) : Type 0 where
  pub is_enabled : e.telemetry.enabled ≡ true
  pub some_timer : is_unset e.timer ≡ false
  pub no_lost : e.lost_timers ≡ 0
  pub none_entering : e.entering ≡ 0
  pub none_stopping : e.stopping ≡ 0
  pub none_updating : e.updating ≡ none

abbrev pub then_do : (Emitter → Next) → Next → Next
then_do f (went e) = f e
then_do f crashed = crashed

abbrev pub end_update : (ℕ → Reply) → ℕ → Emitter → Next
end_update server variance e = elim e.updating [
  | none ↦ went e
  | some final ↦ went (finish final server variance e)
]

-- The update of a call of `StopEmitting`, if one waits to enter.
abbrev pub last_update : Metrics → ℕ → Emitter → Next
last_update m zero e = went e
last_update m (suc n) e = begin m true (record e { stopping = n })

-- A call of `StopEmitting`, with the steps of the update that it makes and waits for.
abbrev pub stop_and_wait : Metrics → (ℕ → Reply) → ℕ → Emitter → Next
stop_and_wait m server variance e =
    then_do (end_update server variance)
      (then_do (λ e'. last_update m e'.stopping e') (stop_emitting e))

-- What has been collected, with the metrics of the moment.
abbrev pub collected : Metrics → Emitter → List (Text × Value)
collected m e = (reset (set_emit_time_metrics m e.telemetry)).1

stop_emitting-stopping :
    (e : Emitter) → IsAtRest e → stop_emitting e ≡ went (record e { stopping = suc e.stopping })
unfolding stop_emitting
stop_emitting-stopping e r = ground (arith, r.is_enabled, r.some_timer)

stop_update_timer-unset :
    (e : Emitter) (t : Timer)
    → is_unset t ≡ false
    → stop_update_timer e t ≡ went (record e { timer = unset })
stop_update_timer-unset e unset h = absurd (cc)
stop_update_timer-unset e fired h = refl
stop_update_timer-unset e (armed t) h = refl

begin-last :
    (m : Metrics) (e : Emitter)
    → e.telemetry.enabled ≡ true
    → is_unset e.timer ≡ false
    → e.updating ≡ none
    → begin m true e
      ≡ went (record e {
        telemetry = (reset (set_emit_time_metrics m e.telemetry)).0;
        updating =
            if m.encodes (reset (set_emit_time_metrics m e.telemetry)).1 then some true else none;
        timer = unset;
      })
unfolding begin
begin-last m e a b c =
    let f : Emitter = record e {
      telemetry = set_emit_time_metrics m e.telemetry;
      updating = some true;
    } in
    ground (arith, stop_update_timer-unset f e.timer b)

-- What the last update does: it empties the buffer, and is transmitted if it can be encoded.
abbrev IsLast : (ℕ → Reply) → Bool → Emitter → Next → Type 0
IsLast server encoded e crashed = ⊥
IsLast server encoded e (went u) =
    IsQuiet u
    × (u.telemetry.buffer ≡ [])
    × (encoded ≡ true → u.disabled ≡ (transmit true server e.disabled).disabled)

end_update-IsLast :
    (server : ℕ → Reply) (variance : ℕ) (encoded : Bool) (e : Emitter)
    → IsQuiet (record e { updating = none })
    → e.telemetry.buffer ≡ []
    → IsLast server encoded e
        (end_update server variance (record e { updating = if encoded then some true else none }))
unfolding finish
end_update-IsLast server variance false e q b = (q, b, λ h. absurd (cc))
end_update-IsLast server variance true e q b = (
  record {
    unset_timer = q.unset_timer;
    no_lost = q.no_lost;
    none_entering = q.none_entering;
    none_stopping = q.none_stopping;
    none_updating = refl;
  },
  b,
  λ h. refl,
)

stop_and_wait-IsLast :
    (m : Metrics) (server : ℕ → Reply) (variance : ℕ) (e : Emitter)
    → IsAtRest e
    → IsLast server (m.encodes (collected m e)) e (stop_and_wait m server variance e)
unfolding reset
stop_and_wait-IsLast m server variance e r =
    rw (stop_emitting-stopping e r, begin-last m e r.is_enabled r.some_timer r.none_updating)
      (end_update-IsLast server variance (m.encodes (collected m e))
        (record e { telemetry = (reset (set_emit_time_metrics m e.telemetry)).0; timer = unset })
        (record {
          unset_timer = refl;
          no_lost = r.no_lost;
          none_entering = r.none_entering;
          none_stopping = r.none_stopping;
          none_updating = refl;
        })
        refl)

-- A call of `StopEmitting`, while no update is in progress and no other call or timer is about to
-- send one, ends without a panic, empties the buffer, and transmits the last update if its payload
-- can be encoded. From then on no step but `StartEmitting` sends anything or panics, in whatever
-- order the steps are taken.
pub stop_and_wait-IsQuiet :
    (m : Metrics) (server : ℕ → Reply) (variance : ℕ) (e : Emitter)
    → IsAtRest e
    → (u : Emitter) × (stop_and_wait m server variance e ≡ went u)
      × (u.telemetry.buffer ≡ [])
      × (m.encodes (collected m e) ≡ true → u.disabled ≡ (transmit true server e.disabled).disabled)
      × ((v : Next) → Runs u 0 v → StaysQuiet v)
stop_and_wait-IsQuiet m server variance e r =
    result (stop_and_wait m server variance e) (stop_and_wait-IsLast m server variance e r)
  where
    result :
        (w : Next)
        → IsLast server (m.encodes (collected m e)) e w
        → (u : Emitter) × (w ≡ went u)
          × (u.telemetry.buffer ≡ [])
          × (m.encodes (collected m e) ≡ true
              → u.disabled ≡ (transmit true server e.disabled).disabled)
          × ((v : Next) → Runs u 0 v → StaysQuiet v)
    result (went u) (q, b, d) = (u, refl, b, d, λ v s. Runs-StaysQuiet u v q s)
    result crashed q = absurd q
