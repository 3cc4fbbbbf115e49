-- ===== src/Telemetry/Disabling.antt =====
-- The metrics that stay disabled under the replies to `emit` in telemetry/telemetry.go.
use iotacaddy.Prelude.{
  ℕ, zero, suc, ◌+◌, ◌*◌, Bool, true, false, not, ◌&&◌, ◌||◌, Option, none, some, List, [], ◌∷◌,
  map, ◌≡◌, refl, if◌then◌else◌, ◌==◌, leb, ltb, arith, Text, text_eq, text_eq_iff, codes,
}
use iotacaddy.Conditions.Defs.{contains}
use iotacaddy.Iota.Int.{ℤ, atoi}
use iotacaddy.Telemetry.Defs.{lookup, put, is_listed, check_key, is_disabled}
use iotacaddy.Telemetry.Bounds.{lookup-put}
use iotacaddy.Telemetry.Sending.{
  Response, Reply, no_reply, replied, Disabled, Sending, remove, enable_key, enable_keys,
  disable_keys, or_after, retry_after, interval, wait_after, back_off, second, Failure, accept,
  send, too_early, update_keys, transmit,
}
use iotacaddy.Telemetry.Schedule.{OfTurn, if-OfTurn, attempts-Holds}
use iotacaddy.Telemetry.Emission.{Emitter, with_disabled, reschedule, finish}

lookup-remove :
    (j k : Text) (m : Disabled) → lookup k (remove j m) ≡ (if text_eq j k then none else lookup k m)
unfolding lookup remove
lookup-remove j k [] = ground arith
lookup-remove j k ((i, v) ∷ m) =
    ground (arith, text_eq_iff j k, text_eq_iff i k, text_eq_iff i j, lookup-remove j k m)

-- A metric that is disabled for good.
abbrev pub IsPermanent : Text → Disabled → Type 0
IsPermanent k m = lookup k m ≡ some false

enable_key-IsPermanent :
    (k j : Text) (m : Disabled) → IsPermanent k m → IsPermanent k (enable_key j m)
enable_key-IsPermanent k j m h = ground (arith, lookup-remove j k m, text_eq_iff j k)

enable_keys-IsPermanent :
    (k : Text) (ks : List Text) (m : Disabled) → IsPermanent k m → IsPermanent k (enable_keys ks m)
unfolding enable_keys
enable_keys-IsPermanent k [] m h = h
enable_keys-IsPermanent k (j ∷ ks) m h =
    enable_keys-IsPermanent k ks (enable_key j m) (enable_key-IsPermanent k j m h)

disable_keys-IsPermanent :
    (k : Text) (ks : List Text) (m : Disabled)
    → is_listed k ks ≡ false
    → IsPermanent k m
    → IsPermanent k (disable_keys ks m)
unfolding disable_keys is_listed
disable_keys-IsPermanent k [] m n h = h
disable_keys-IsPermanent k (j ∷ ks) m n h =
    disable_keys-IsPermanent k ks (put j true m) (ground (arith, n))
      (ground (arith, n, lookup-put j k true m))

-- The reply does not name the key among those to disable.
abbrev pub Spares : Text → Reply → Type 0
Spares k no_reply = Unit
Spares k (replied status content after decode) =
    (r : Response)
    → is_listed k r.disable_keys ≡ false
    → is_listed k (decode r).0.disable_keys ≡ false

abbrev Kept : Text → Sending → Type 0
Kept k s = IsPermanent k s.disabled × (is_listed k s.reply.disable_keys ≡ false)

wait_after-Kept :
    (k : Text) (f : Option Failure) (t : ℕ) (s : Sending) → Kept k s → Kept k (wait_after f t s)
wait_after-Kept k none t s h = h
wait_after-Kept k (some _) t s h = h

back_off-Kept : (k : Text) (i : ℕ) (s : Sending) → Kept k s → Kept k (back_off i s)
back_off-Kept k zero s h = h
back_off-Kept k (suc i) s h = wait_after-Kept k s.failure ((i + 2) * (i + 2) * (i + 2) * second) s h

update_keys-Kept :
    (k : Text) (r : Response) (s : Sending)
    → is_listed k r.disable_keys ≡ false
    → Kept k s
    → Kept k (update_keys r s)
update_keys-Kept k r s n (h, g) = (
  disable_keys-IsPermanent k r.disable_keys (enable_keys r.enable_keys s.disabled) n
      (enable_keys-IsPermanent k r.enable_keys s.disabled h),
  n,
)

or_after-keys : (t : Option ℤ) (r : Response) → (or_after t r).disable_keys ≡ r.disable_keys
or_after-keys none r = refl
or_after-keys (some n) r = refl

too_early-Kept :
    (k : Text) (final : Bool) (after : Text) (s : Sending)
    → Kept k s
    → OfTurn (Kept k) (too_early final (record s { reply = retry_after after s.reply }))
too_early-Kept k final after s (h, g) =
    if-OfTurn (Kept k) final _ _ (λ e. (h, same)) (λ e. (h, same))
  where
    same : is_listed k (retry_after after s.reply).disable_keys ≡ false
    same = ground (arith, or_after-keys (atoi after) s.reply)

accept-Kept :
    (k : Text) (final : Bool) (status : ℕ) (after : Text) (s : Sending) (r : Response × Bool)
    → is_listed k r.0.disable_keys ≡ false
    → Kept k s
    → OfTurn (Kept k) (accept final status after s r)
unfolding accept
accept-Kept k final status after s (r, false) n h = (h.0, n)
accept-Kept k final status after s (r, true) n h =
    let u = update_keys-Kept k r s n h in
    if-OfTurn (Kept k) (status == 429) _ _ (λ e. too_early-Kept k final after (update_keys r s) u)
      λ e. if-OfTurn (Kept k) (leb 400 status) _ _ (λ e'. u) (λ e'. u)

send-Kept :
    (k : Text) (final : Bool) (q : Reply) (s : Sending)
    → Spares k q
    → Kept k s
    → OfTurn (Kept k) (send final q s)
unfolding send
send-Kept k final no_reply s c h = h
send-Kept k final (replied status content after decode) s c h =
    if-OfTurn (Kept k) (status == 410) _ _ (λ e. h)
      λ e.
        if-OfTurn (Kept k) (status == 451) _ _ (λ e'. h)
          λ e'.
            if-OfTurn (Kept k)
              ((ltb status 300 || leb 400 status) && not (contains content (codes "json"))) _ _
              (λ e''. h)
              λ e''. accept-Kept k final status after s (decode s.reply) (c s.reply h.1) h

transmit-Kept :
    (k : Text) (final : Bool) (server : ℕ → Reply) (m : Disabled)
    → ((i : ℕ) → Spares k (server i))
    → IsPermanent k m
    → Kept k (transmit final server m)
unfolding transmit is_listed
transmit-Kept k final server m c h =
    attempts-Holds (Kept k) final server
      (λ i s p. send-Kept k final (server i) (back_off i s) (c i) (back_off-Kept k i s p)) 4 0 _
      (h, refl)

is_listed-lookup :
    (k : Text) (b : Bool) (m : Disabled)
    → lookup k m ≡ some b
    → is_listed k (map (λ p. p.0) m) ≡ true
unfolding lookup is_listed
is_listed-lookup k b [] h = absurd (cc)
is_listed-lookup k b ((j, v) ∷ m) h = ground (arith, is_listed-lookup k b m)

-- A metric that was disabled for good, as `Init` does it for the user, is so after an update, and its
-- calls stay without effect, unless a reply names it among the keys to disable. To name it among
-- those to enable changes nothing.
pub finish-IsPermanent :
    (k key : Text) (final : Bool) (server : ℕ → Reply) (variance : ℕ) (e : Emitter)
    → check_key key ≡ k
    → ((i : ℕ) → Spares k (server i))
    → IsPermanent k e.disabled
    → IsPermanent k (finish final server variance e).disabled
      × (is_disabled key (finish final server variance e).telemetry ≡ true)
unfolding finish is_disabled
finish-IsPermanent k key final server variance e a c h =
    let s = transmit final server e.disabled in
    same (not final && not s.reply.stop) (interval variance s.reply)
  where
    kept : IsPermanent k (transmit final server e.disabled).disabled
    kept = (transmit-Kept k final server e.disabled c h).0

    listed :
        is_listed (check_key key) (map (λ p. p.0) (transmit final server e.disabled).disabled)
        ≡ true
    listed = rw a (is_listed-lookup k false (transmit final server e.disabled).disabled kept)

    same :
        (b : Bool) (t : ℤ)
        → let e' =
            reschedule b t (record (with_disabled (transmit final server e.disabled).disabled e) {
              updating = none;
            }) in
          IsPermanent k e'.disabled × (is_listed (check_key key) e'.telemetry.disabled ≡ true)
    same true t = (kept, listed)
    same false t = (kept, listed)
