-- ===== src/Telemetry/Schedule.antt =====
-- That `emit` in telemetry/telemetry.go goes on after an update.
use iotacaddy.Prelude.{
  ℕ, zero, suc, ◌+◌, ◌*◌, Bool, true, false, not, ◌&&◌, ◌||◌, Option, none, some, ◌≡◌, ◌≢◌, refl,
  if◌then◌else◌, ◌==◌, leb, ltb, arith, Bool-cases, inl, inr, Text, codes,
}
use iotacaddy.Conditions.Defs.{contains}
use iotacaddy.Iota.Int.{ℤ, less, pos, atoi}
use iotacaddy.Telemetry.Sending.{
  Response, Reply, no_reply, replied, Disabled, Sending, Turn, retry, leave, second, back_off,
  or_after, retry_after, too_early, update_keys, accept, send, after_turn, attempts, transmit,
  interval,
}
use iotacaddy.Telemetry.Emission.{Emitter, armed, finish}

-- The reply does not tell the client to stop.
abbrev pub Continues : Reply → Type 0
Continues no_reply = Unit
Continues (replied status content after decode) =
    (status ≢ 410) × (status ≢ 451) × ((r : Response) → r.stop ≡ false → (decode r).0.stop ≡ false)

-- What holds of the variables of the loop throughout.
abbrev pub OfTurn : (Sending → Type 0) → Turn → Type 0
OfTurn P (retry s) = P s
OfTurn P (leave s) = P s

pub if-OfTurn :
    (P : Sending → Type 0) (b : Bool) (x y : Turn)
    → (b ≡ true → OfTurn P x)
    → (b ≡ false → OfTurn P y)
    → OfTurn P (if b then x else y)
if-OfTurn P true x y f g = f refl
if-OfTurn P false x y f g = g refl

after_turn-Holds :
    (P : Sending → Type 0) (more : Sending → Sending) (t : Turn)
    → OfTurn P t
    → ((s : Sending) → P s → P (more s))
    → P (after_turn more t)
after_turn-Holds P more (retry s) h g = g s h
after_turn-Holds P more (leave s) h g = h

module _ (P : Sending → Type 0) (final : Bool) (server : ℕ → Reply)
    (on_send : (i : ℕ) (s : Sending) → P s → OfTurn P (send final (server i) (back_off i s))) where
  pub attempts-Holds : (n i : ℕ) (s : Sending) → P s → P (attempts n final server i s)
  unfolding attempts
  attempts-Holds zero i s h = h
  attempts-Holds (suc n) i s h =
      after_turn-Holds P (λ s'. attempts n final server (suc i) s')
        (send final (server i) (back_off i s)) (on_send i s h)
        λ s' h'. attempts-Holds n (suc i) s' h'

abbrev Unstopped : Sending → Type 0
Unstopped s = s.reply.stop ≡ false

back_off-Unstopped : (i : ℕ) (s : Sending) → Unstopped s → Unstopped (back_off i s)
back_off-Unstopped zero s h = h
back_off-Unstopped (suc i) s h = ground arith

or_after-stop : (t : Option ℤ) (r : Response) → (or_after t r).stop ≡ r.stop
or_after-stop none r = refl
or_after-stop (some n) r = refl

too_early-Unstopped :
    (final : Bool) (after : Text) (r : Response) (s : Sending)
    → r.stop ≡ false
    → OfTurn Unstopped (too_early final (record s { reply = retry_after after r }))
too_early-Unstopped final after r s h = ground (arith, or_after-stop (atoi after) r)

accept-Unstopped :
    (final : Bool) (status : ℕ) (after : Text) (s : Sending) (r : Response × Bool)
    → r.0.stop ≡ false
    → OfTurn Unstopped (accept final status after s r)
unfolding accept
accept-Unstopped final status after s (r, false) h = h
accept-Unstopped final status after s (r, true) h =
    if-OfTurn Unstopped (status == 429) _ _
      (λ e. too_early-Unstopped final after r (update_keys r s) h)
      λ e. if-OfTurn Unstopped (leb 400 status) _ _ (λ e'. h) (λ e'. h)

send-Unstopped :
    (final : Bool) (q : Reply) (s : Sending)
    → Continues q
    → Unstopped s
    → OfTurn Unstopped (send final q s)
unfolding send
send-Unstopped final no_reply s c h = h
send-Unstopped final (replied status content after decode) s (a, b, c) h =
    if-OfTurn Unstopped (status == 410) _ _ (λ e. absurd (ground arith))
      λ e.
        if-OfTurn Unstopped (status == 451) _ _ (λ e'. absurd (ground arith))
          λ e'.
            if-OfTurn Unstopped
              ((ltb status 300 || leb 400 status) && not (contains content (codes "json"))) _ _
              (λ e''. h) λ e''. accept-Unstopped final status after s (decode s.reply) (c s.reply h)

transmit-Unstopped :
    (final : Bool) (server : ℕ → Reply) (m : Disabled)
    → ((i : ℕ) → Continues (server i))
    → Unstopped (transmit final server m)
unfolding transmit
transmit-Unstopped final server m c =
    attempts-Holds Unstopped final server
      (λ i s h. send-Unstopped final (server i) (back_off i s) (c i) (back_off-Unstopped i s h)) 4 0
      _ refl

hour-less : (variance : ℕ) → less (pos (3600 * second + variance)) (pos second) ≡ false
unfolding less
hour-less variance = ground arith

interval-second : (variance : ℕ) (r : Response) → less (interval variance r) (pos second) ≡ false
unfolding interval
interval-second variance r = elim (Bool-cases (less r.next_update (pos second))) [
  | inl e ↦ rw e (hour-less variance)
  | inr e ↦ rw e e
]

-- An update that is not the last one and whose payload is encoded ends with the next one scheduled,
-- at least a second later, whatever the replies are, or if there are none, as long as none of them
-- tells the client to stop: by a status 410 or 451, or in its body.
pub finish-Continues :
    (server : ℕ → Reply) (variance : ℕ) (e : Emitter)
    → ((i : ℕ) → Continues (server i))
    → (t : ℤ) × ((finish false server variance e).timer ≡ armed t)
      × ((finish false server variance e).updating ≡ none)
      × (less t (pos second) ≡ false)
unfolding finish
finish-Continues server variance e c =
    let s = transmit false server e.disabled in
    rw (transmit-Unstopped false server e.disabled c)
      (interval variance s.reply, refl, refl, interval-second variance s.reply)
