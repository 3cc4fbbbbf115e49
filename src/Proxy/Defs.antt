-- ===== src/Proxy/Defs.antt =====
-- `Proxy.ServeHTTP` and `match` of caddyhttp/proxy/proxy.go, with `Path.Matches` of
-- caddyhttp/httpserver/path.go. A pointer to a host is a number; time is counted from any start.
use iotacaddy.Prelude.{
  ℕ, zero, suc, ◌+◌, ◌-◌, Bool, true, false, not, ◌&&◌, ◌||◌, Option, none, some, List, [], ◌∷◌,
  ◌++◌, if◌then◌else◌, ltb, leb, ◌==◌, Text, text_eq,
}
use iotacaddy.Lexer.Defs.{is_nil}
use iotacaddy.EnvVars.Defs.{has_prefix}
use iotacaddy.Conditions.Defs.{has_suffix}

-- `path.Clean` and `strings.ToLower`, and the variable `CaseSensitivePath`.
pub record PathOps : Type 0 where
  pub clean : Text → Text
  pub to_lower : Text → Text
  pub case_sensitive : Bool

abbrev pub slash : Text
slash = b'/' ∷ []

abbrev pub sanitized : PathOps → Text → Text
sanitized o p = if has_suffix p slash then o.clean p ++ slash else o.clean p

-- `Path.Matches`.
unfoldable pub matches : PathOps → Text → Text → Bool
matches o p base =
    if text_eq base slash || is_nil base
    then true
    else if o.case_sensitive
    then has_prefix (sanitized o p) (sanitized o base)
    else has_prefix (o.to_lower (sanitized o p)) (o.to_lower (sanitized o base))

-- The counters of an `UpstreamHost`, which the requests share.
pub record Counts : Type 0 where
  pub conns : ℕ
  pub fails : ℕ

abbrev pub Store : Type 0
Store = ℕ → Counts

-- The interface `Upstream`, for one request, over what its policy remembers.
pub record Upstream (S : Type 0) : Type 0 where
  pub from : Text
  pub allowed_path : Text → Bool
  pub host_count : ℕ
  pub try_duration : ℕ
  pub try_interval : ℕ
  pub select : S → Store → S × Option ℕ

pub data Fault : Type 0 where
  no_hosts max_bytes_exceeded canceled : Fault
  nil_proxy cannot_rewind cannot_read_body : Fault
  failed : ℕ → Fault

-- The length of a string in bytes, by the code points of its text.
abbrev pub rune_bytes : ℕ → ℕ
rune_bytes c = if ltb c 128 then 1 else if ltb c 2048 then 2 else if ltb c 65536 then 3 else 4

unfoldable pub byte_length : Text → ℕ
byte_length [] = 0
byte_length (c ∷ s) = rune_bytes c + byte_length s

-- The loop of `match`.
unfoldable pub match_from :
    {S : Type 0}
    → PathOps
    → Text
    → ℕ
    → Option (Upstream S)
    → List (Upstream S)
    → Option (Upstream S)
match_from o path longest u [] = u
match_from o path longest u (v ∷ vs) =
    if not (matches o path v.from) || not (v.allowed_path path)
    then match_from o path longest u vs
    else if ltb longest (byte_length v.from)
    then match_from o path (byte_length v.from) (some v) vs
    else match_from o path longest u vs

unfoldable pub match : {S : Type 0} → PathOps → Text → List (Upstream S) → Option (Upstream S)
match o path us = match_from o path 0 none us

-- What lies outside: the hosts, the backends behind them, and how long things take. The `n`-th
-- attempt of a request is at hand for the backend and for the rewinding of the body, which is true
-- of a body that is not buffered.
pub record Outside : Type 0 where
  pub fail_timeout : ℕ → ℕ
  pub has_proxy : ℕ → Bool
  pub reads_body : Bool
  pub rewinds : ℕ → Bool
  pub backend : ℕ → ℕ → Option Fault
  pub took : ℕ → ℕ
  pub late : ℕ → ℕ

-- A goroutine that waits to take a failure of a host back.
pub record Timer : Type 0 where
  pub at : ℕ
  pub host : ℕ

pub record World (S : Type 0) : Type 0 where
  pub policy : S
  pub store : Store
  pub timers : List Timer
  pub now : ℕ
  pub attempts : ℕ

unfoldable pub change : ℕ → (Counts → Counts) → Store → Store
change i f store j = if i == j then f (store j) else store j

abbrev pub raise_conns : Counts → Counts
raise_conns c = record c { conns = c.conns + 1 }

abbrev pub lower_conns : Counts → Counts
lower_conns c = record c { conns = c.conns - 1 }

abbrev pub raise_fails : Counts → Counts
raise_fails c = record c { fails = c.fails + 1 }

abbrev pub lower_fails : Counts → Counts
lower_fails c = record c { fails = c.fails - 1 }

-- The timers that are due take their failures back.
unfoldable pub due_store : ℕ → List Timer → Store → Store
due_store now [] store = store
due_store now (t ∷ ts) store =
    let rest = due_store now ts store in
    if leb t.at now then change t.host lower_fails rest else rest

unfoldable pub waiting : ℕ → List Timer → List Timer
waiting now [] = []
waiting now (t ∷ ts) = let rest = waiting now ts in if leb t.at now then rest else t ∷ rest

-- Time passes.
unfoldable pub pass : {S : Type 0} → ℕ → World S → World S
pass n w = record w {
  now = w.now + n;
  store = due_store (w.now + n) w.timers w.store;
  timers = waiting (w.now + n) w.timers;
}

pub data Answer : Type 0 where
  next_handler unfinished : Answer
  answer : ℕ → Option Fault → Answer

-- What becomes of a round: `ServeHTTP` returns, or asks whether to retry.
pub data Step : Type 0 where
  return : Answer → Step
  retry : Fault → Step

-- The failure is remembered for some time.
unfoldable pub remember : {S : Type 0} → Outside → ℕ → World S → World S
remember x i w =
    if ltb 0 (x.fail_timeout i)
    then record w {
      store = change i raise_fails w.store;
      timers = record { at = w.now + x.fail_timeout i; host = i } ∷ w.timers;
    }
    else w

-- The call of the backend, its connection counted while it takes.
unfoldable pub call : {S : Type 0} → Outside → ℕ → World S → World S
call x i w =
    let w' = pass (x.took w.attempts) (record w { store = change i raise_conns w.store }) in
    record w' { store = change i lower_conns w'.store; attempts = w'.attempts + 1 }

unfoldable pub after_call : {S : Type 0} → Outside → ℕ → Option Fault → World S → World S × Step
after_call x i none w = (w, return (answer 0 none))
after_call x i (some max_bytes_exceeded) w = (w, return (answer 413 (some max_bytes_exceeded)))
after_call x i (some canceled) w = (w, return (answer 499 (some canceled)))
after_call x i (some e) w = (remember x i w, retry e)

unfoldable pub attempt : {S : Type 0} → Outside → ℕ → World S → World S × Step
attempt x i w =
    if not (x.has_proxy i)
    then (w, return (answer 500 (some nil_proxy)))
    else if not (x.rewinds w.attempts)
    then (w, return (answer 500 (some cannot_rewind)))
    else after_call x i (x.backend w.attempts i) (call x i w)

abbrev pub or_no_hosts : Option Fault → Fault
or_no_hosts none = no_hosts
or_no_hosts (some e) = e

abbrev pub on_host : {S : Type 0} → Outside → Option Fault → World S → Option ℕ → World S × Step
on_host x last w none = (w, retry (or_no_hosts last))
on_host x last w (some i) = attempt x i w

unfoldable pub round : {S : Type 0} → Outside → Upstream S → Option Fault → World S → World S × Step
round x u last w =
    let (policy, host) = u.select w.policy w.store in
    on_host x last (record w { policy = policy }) host

abbrev pub is_canceled : Fault → Bool
is_canceled canceled = true
is_canceled _ = false

-- `keepRetrying`, on the time at which `ServeHTTP` started.
unfoldable pub keep_retrying :
    {S : Type 0} → Outside → Upstream S → ℕ → Fault → World S → World S × Bool
keep_retrying x u start e w =
    if is_canceled e
    then (w, false)
    else if leb u.try_duration (w.now - start)
    then (w, false)
    else (pass (u.try_interval + x.late w.attempts) w, true)

-- What follows the answer of `keepRetrying`, and what follows a round.
abbrev pub unless_stopped :
    {S : Type 0} → Fault → (World S → World S × Answer) → World S × Bool → World S × Answer
unless_stopped e more (w, false) = (w, answer 502 (some e))
unless_stopped e more (w, true) = more w

abbrev pub after_round :
    {S : Type 0}
    → Outside
    → Upstream S
    → ℕ
    → (Fault → World S → World S × Answer)
    → World S × Step
    → World S × Answer
after_round x u start more (w, return a) = (w, a)
after_round x u start more (w, retry e) = unless_stopped e (more e) (keep_retrying x u start e w)

-- The loop, on fuel, with the error of the last backend.
unfoldable pub retry_from :
    {S : Type 0} → ℕ → Outside → Upstream S → ℕ → Option Fault → World S → World S × Answer
retry_from zero x u start last w = (w, unfinished)
retry_from (suc f) x u start last w =
    after_round x u start (λ e w'. retry_from f x u start (some e) w') (round x u last w)

abbrev pub requires_buffering : {S : Type 0} → Upstream S → Bool
requires_buffering u = ltb 1 u.host_count && not (u.try_duration == 0)

abbrev pub with_upstream :
    {S : Type 0} → ℕ → Outside → Option (Upstream S) → World S → World S × Answer
with_upstream f x none w = (w, next_handler)
with_upstream f x (some u) w =
    if requires_buffering u && not x.reads_body
    then (w, answer 400 (some cannot_read_body))
    else retry_from f x u w.now none w

unfoldable pub serve_http :
    {S : Type 0} → PathOps → ℕ → Outside → Text → List (Upstream S) → World S → World S × Answer
serve_http o f x path us w = with_upstream f x (match o path us) w
