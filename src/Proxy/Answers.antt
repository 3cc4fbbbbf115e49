-- ===== src/Proxy/Answers.antt =====
-- The answers of `Proxy.ServeHTTP` of caddyhttp/proxy/proxy.go, and that its loop ends.
use iotacaddy.Prelude.{ℕ, suc, ◌-◌, ◌≤◌, Bool, true, false, Option, none, some, ◌≡◌, leb, ◌⊎◌}
use iotacaddy.Proxy.Defs.{
  Store, Upstream, Fault, no_hosts, max_bytes_exceeded, canceled, nil_proxy, cannot_rewind, Outside,
  World, Answer, answer, Step, return, retry, call, is_canceled,
}

-- The last call of a request: that of a host which was selected for it, and what came of it. The
-- calls of the request start with the `first`, and `next` is the number of the one to come.
pub record IsLastCall {S : Type 0} (x : Outside) (u : Upstream S) (first next : ℕ)
    (o : Option Fault) : Type 0 where
  pub call : ℕ
  pub host : ℕ
  pub policy : S
  pub store : Store
  pub in_request : first ≤ call
  pub is_last : next ≡ suc call
  pub selected : (u.select policy store).1 ≡ some host
  pub came_to : x.backend call host ≡ o

-- What the answers mean. `over` says that the time for trying is over.
pub data IsAnswer {S : Type 0} (x : Outside) (u : Upstream S) (first next : ℕ) (over : Bool)
    : Answer → Type 0 where
  success : IsLastCall x u first next none → IsAnswer x u first next over (answer 0 none)
  too_large :
      IsLastCall x u first next (some max_bytes_exceeded)
      → IsAnswer x u first next over (answer 413 (some max_bytes_exceeded))
  left :
      IsLastCall x u first next (some canceled)
      → IsAnswer x u first next over (answer 499 (some canceled))
  no_proxy :
      (i : ℕ) (policy : S) (store : Store)
      → (u.select policy store).1 ≡ some i
      → x.has_proxy i ≡ false
      → IsAnswer x u first next over (answer 500 (some nil_proxy))
  no_rewind :
      x.rewinds next ≡ false → IsAnswer x u first next over (answer 500 (some cannot_rewind))
  never_called :
      next ≡ first → over ≡ true → IsAnswer x u first next over (answer 502 (some no_hosts))
  bad_gateway :
      (e : Fault)
      → IsLastCall x u first next (some e)
      → is_canceled e ≡ false
      → over ≡ true
      → IsAnswer x u first next over (answer 502 (some e))

module _ {S : Type 0} (x : Outside) (u : Upstream S) (start first : ℕ) where
  abbrev is_over : World S → Bool
  is_over w = leb u.try_duration (w.now - start)

  -- The error at hand: that of the last call, or that of no host if there was none.
  abbrev IsLastFault : ℕ → Fault → Type 0
  IsLastFault next e =
      ((e ≡ no_hosts) × (next ≡ first))
      ⊎ (IsLastCall x u first next (some e) × (is_canceled e ≡ false))

  abbrev IsLast : ℕ → Option Fault → Type 0
  IsLast next none = next ≡ first
  IsLast next (some e) = IsLastFault next e

  -- A round returns an answer, or asks to retry after an error; time does not run backwards.
  IsStep : World S → Step → Type 0
  IsStep w (return a) = IsAnswer x u first w.attempts (is_over w) a
  IsStep w (retry e) = IsLastFault w.attempts e

  abbrev Goes : ℕ → World S × Step → Type 0
  Goes now (w, s) = (now ≤ w.now) × IsStep w s

  -- A host was selected.
  abbrev IsSelected : ℕ → Type 0
  IsSelected i = (p : S) × (s : Store) × ((u.select p s).1 ≡ some i)

  -- The result of the loop is an answer.
  abbrev Answers : World S × Answer → Type 0
  Answers (w, a) = IsAnswer x u first w.attempts (is_over w) a
