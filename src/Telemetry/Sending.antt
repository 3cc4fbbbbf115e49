-- ===== src/Telemetry/Sending.antt =====
-- The loop of `emit` in telemetry/telemetry.go, which sends an update and takes the server's replies.
-- A duration is an integer, of nanoseconds.
use iotacaddy.Prelude.{
  ◌-◌, ℕ, zero, suc, ◌+◌, ◌*◌, ◌%◌, ◌^◌, Bool, true, false, not, ◌&&◌, ◌||◌, Option, none, some,
  List, [], ◌∷◌, ◌++◌, ltb, leb, ◌==◌, if◌then◌else◌, Text, codes, text_eq,
}
use iotacaddy.Conditions.Defs.{contains}
use iotacaddy.Iota.Int.{ℤ, pos, negsuc, less, atoi}
use iotacaddy.Telemetry.Defs.{lookup, put}

-- `Response`; its message is not read.
pub record Response : Type 0 where
  pub next_update : ℤ
  pub stop : Bool
  pub disable_keys : List Text
  pub enable_keys : List Text

-- What comes of a request: an error, or a reply with its status, its headers and what decoding its
-- body makes of the response so far, with whether it succeeds.
pub data Reply : Type 0 where
  no_reply : Reply
  replied : ℕ → Text → Text → (Response → Response × Bool) → Reply

pub data Failure : Type 0 where
  post_failed gone illegal unknown_content undecoded : Failure
  bad_status : ℕ → Failure

-- `disabledMetrics`: a key, and whether it is disabled for a time only.
abbrev pub Disabled : Type 0
Disabled = List (Text × Bool)

unfoldable pub remove : Text → Disabled → Disabled
remove k [] = []
remove k ((j, v) ∷ m) = let rest = remove k m in if text_eq j k then rest else (j, v) ∷ rest

-- The loops over `EnableKeys` and `DisableKeys`.
abbrev pub enable_key : Text → Disabled → Disabled
enable_key k m = elim (lookup k m) [ some true ↦ remove k m | _ ↦ m ]

unfoldable pub enable_keys : List Text → Disabled → Disabled
enable_keys [] m = m
enable_keys (k ∷ ks) m = enable_keys ks (enable_key k m)

unfoldable pub disable_keys : List Text → Disabled → Disabled
disable_keys [] m = m
disable_keys (k ∷ ks) m = disable_keys ks (put k true m)

-- The variables of the loop, and the durations slept.
pub record Sending : Type 0 where
  pub reply : Response
  pub failure : Option Failure
  pub disabled : Disabled
  pub slept : List ℤ

-- A round ends with `continue` or with `break`.
pub data Turn : Type 0 where
  retry leave : Sending → Turn

abbrev pub second : ℕ
second = 1000000000

abbrev pub wait_after : Option Failure → ℕ → Sending → Sending
wait_after none t s = s
wait_after (some _) t s = record s { slept = s.slept ++ (pos t ∷ []) }

abbrev pub back_off : ℕ → Sending → Sending
back_off zero s = s
back_off (suc i) s = wait_after s.failure ((i + 2) * (i + 2) * (i + 2) * second) s

abbrev pub ended_by : Failure → Sending → Turn
ended_by e s = leave (record s { failure = some e; reply = record s.reply { stop = true } })

abbrev pub positive : ℤ → Bool
positive t = less (pos 0) t

-- An `int64`, from its value mod 2 ^ 64, and the product of a number of seconds with `time.Second`.
abbrev pub to_int64 : ℕ → ℤ
to_int64 n = let m = n % 2 ^ 64 in if ltb m (2 ^ 63) then pos m else negsuc (2 ^ 64 - m - 1)

abbrev pub times_second : ℤ → ℤ
times_second (pos n) = to_int64 (n * second)
times_second (negsuc n) = to_int64 (2 ^ 64 - ((n + 1) * second) % 2 ^ 64)

abbrev pub or_after : Option ℤ → Response → Response
or_after none r = r
or_after (some n) r = record r { next_update = times_second n }

abbrev pub retry_after : Text → Response → Response
retry_after value r = if positive r.next_update then r else or_after (atoi value) r

abbrev pub too_early : Bool → Sending → Turn
too_early final s =
    if final then leave s else retry (record s { slept = s.slept ++ (s.reply.next_update ∷ []) })

-- The reply is decoded, without an error.
abbrev pub update_keys : Response → Sending → Sending
update_keys r s = record s {
  reply = r;
  failure = none;
  disabled = disable_keys r.disable_keys (enable_keys r.enable_keys s.disabled);
}

unfoldable pub accept : Bool → ℕ → Text → Sending → Response × Bool → Turn
accept final status after s (r, false) = retry (record s { reply = r; failure = some undecoded })
accept final status after s (r, true) =
    let s' = update_keys r s in
    if status == 429
    then too_early final (record s' { reply = retry_after after r })
    else if leb 400 status
    then retry (record s' { failure = some (bad_status status) })
    else leave s'

unfoldable pub send : Bool → Reply → Sending → Turn
send final no_reply s = retry (record s { failure = some post_failed })
send final (replied status content after decode) s =
    if status == 410
    then ended_by gone s
    else if status == 451
    then ended_by illegal s
    else if (ltb status 300 || leb 400 status) && not (contains content (codes "json"))
    then retry (record s { failure = some unknown_content })
    else accept final status after s (decode s.reply)

-- The loop, of which `n` rounds are left.
abbrev pub after_turn : (Sending → Sending) → Turn → Sending
after_turn more (retry s) = more s
after_turn more (leave s) = s

unfoldable pub attempts : ℕ → Bool → (ℕ → Reply) → ℕ → Sending → Sending
attempts zero final server i s = s
attempts (suc n) final server i s =
    after_turn (λ s'. attempts n final server (suc i) s') (send final (server i) (back_off i s))

abbrev pub no_response : Response
no_response = record { next_update = pos 0; stop = false; disable_keys = []; enable_keys = [] }

unfoldable pub transmit : Bool → (ℕ → Reply) → Disabled → Sending
transmit final server m =
    attempts 4 final server 0
      (record { reply = no_response; failure = none; disabled = m; slept = [] })

-- `defaultUpdateInterval`, to which a variance is added.
unfoldable pub interval : ℕ → Response → ℤ
interval variance r =
    if less r.next_update (pos second) then pos (3600 * second + variance) else r.next_update
