-- ===== src/Iota/Defs.antt =====
-- The interceptor of iota/plugin.go. The JSON codec, the transaction library, the proof of work
-- and the clock are parameters; logging is left out, and with it what is computed for the log only.
use iotacaddy.Prelude.{
  ℕ, zero, suc, ◌-◌, ◌/◌, Bool, true, false, not, ◌&&◌, ◌||◌, Option, none, some, List, [], ◌∷◌,
  ◌==◌, if◌then◌else◌, Text, codes, text_eq, length,
}
use iotacaddy.Dispenser.Defs
use iotacaddy.Dispenser.Defs.{Dispenser, Error, next_arg, val, arg_err}
use iotacaddy.Iota.Int.{ℤ, pos, less, atoi}

-- `AttachToTangleReq`.
pub record AttachToTangleReq : Type 0 where
  pub command : Text
  pub trunk_tx_hash : Text
  pub branch_tx_hash : Text
  pub mwm : ℤ
  pub trytes : List Text

-- `AttachToTangleRes`.
pub record AttachToTangleRes : Type 0 where
  pub trytes : List Text
  pub duration : ℕ

-- What is not of the repository.
pub record Library : Type 0 where
  -- json.Unmarshal into an AttachToTangleReq
  pub unmarshal : Text → Option AttachToTangleReq
  -- json.Marshal of an AttachToTangleRes
  pub marshal : AttachToTangleRes → Option Text
  -- whether transaction.AsTransactionObject returns no error
  pub is_transaction : Text → Bool
  -- pow.DoPoW on trunk, branch, trytes and weight, with the function that is used
  pub do_pow : Text → Text → List Text → ℤ → Option (List Text)

-- The body of a request: what is left to be read, and whether reading it fails.
pub record Body : Type 0 where
  pub unread : Text
  pub broken : Bool

pub record Request : Type 0 where
  pub method : Text
  pub body : Option Body

-- The settings, package variables that `setup` writes.
pub record Config : Type 0 where
  pub max_mwm : ℤ
  pub max_tx_in_bundle : ℤ

pub data Failure : Type 0 where
  missing_body building_tx building_res tx_bundle_limit_exceeded executing_proof_of_work
        invalid_mwm :
      Failure

-- What `ServeHTTP` does: it calls the next handler with the request as it then is, returns a
-- status with an error, or writes a body and returns status 200.
pub data Outcome : Type 0 where
  forwarded : Request → Outcome
  failed : ℕ → Failure → Outcome
  answered : Text → Outcome

abbrev pub post : Text
post = codes "POST"

abbrev pub attach_to_tangle : Text
attach_to_tangle = codes "attachToTangle"

-- The request once its body was read to the end.
abbrev pub drained : Request → Request
drained r = record r { body = some (record { unread = []; broken = false }) }

-- `ioutil.NopCloser(bytes.NewReader(contents))`.
abbrev pub with_body : Request → Text → Request
with_body r contents = record r { body = some (record { unread = contents; broken = false }) }

-- The loop over the trytes, last to first; its result does not depend on the order.
unfoldable pub all_transactions : Library → List Text → Bool
all_transactions l [] = true
all_transactions l (t ∷ ts) = all_transactions l ts && l.is_transaction t

-- From the proof of work on. `started` and `stopped` are readings of the clock in nanoseconds,
-- `writes` says whether the response can be written.
unfoldable pub answer : Library → ℕ → ℕ → Bool → AttachToTangleReq → Outcome
answer l started stopped writes c =
    elim (l.do_pow c.trunk_tx_hash c.branch_tx_hash c.trytes c.mwm) [
      | none ↦ failed 400 executing_proof_of_work
      | some bundle ↦
          elim (l.marshal (record { trytes = bundle; duration = (stopped - started) / 1000000 })) [
            | none ↦ failed 500 building_res
            | some bytes ↦ if writes then answered bytes else failed 500 building_res
          ]
    ]

-- From the test of the weight on; `r` has its body again.
unfoldable pub attach : Library → Config → ℕ → ℕ → Bool → Request → AttachToTangleReq → Outcome
unfolding answer all_transactions
attach l g started stopped writes r c =
    if less g.max_mwm c.mwm || less c.mwm (pos 0)
    then failed 400 invalid_mwm
    else if length c.trytes == 0
    then forwarded r
    else if less g.max_tx_in_bundle (pos (length c.trytes))
    then failed 400 tx_bundle_limit_exceeded
    else if not (all_transactions l c.trytes)
    then failed 400 building_tx
    else answer l started stopped writes c

-- From `json.Unmarshal` on.
unfoldable pub dispatch : Library → Config → ℕ → ℕ → Bool → Request → Text → Outcome
unfolding attach
dispatch l g started stopped writes r contents = elim (l.unmarshal contents) [
  | none ↦ forwarded (drained r)
  | some c ↦
      if not (text_eq c.command attach_to_tangle)
      then forwarded (with_body r contents)
      else attach l g started stopped writes (with_body r contents) c
]

-- `Interceptor.ServeHTTP`.
unfoldable pub serve_http : Library → Config → ℕ → ℕ → Bool → Request → Outcome
serve_http l g started stopped writes r =
    if not (text_eq r.method post) then forwarded r else elim r.body [
      | none ↦ failed 400 missing_body
      | some b ↦
          if b.broken
          then failed 400 missing_body
          else dispatch l g started stopped writes r b.unread
    ]

abbrev pub default_max_mwm : ℤ
default_max_mwm = pos 14

abbrev pub default_max_txs_in_bundle : ℤ
default_max_txs_in_bundle = pos 20

abbrev pub or_default : ℤ → Option ℤ → ℤ
or_default d none = d
or_default d (some n) = n

-- The `switch` of `setup` on the number of the argument.
unfoldable pub configure : ℕ → Text → Config → Config
configure zero v g = record g { max_mwm = or_default default_max_mwm (atoi v) }
configure (suc zero) v g = record g {
  max_tx_in_bundle = or_default default_max_txs_in_bundle (atoi v);
}
configure (suc (suc i)) v g = g

-- The inner loop of `setup`, over the arguments of a line; `i` counts them.
unfoldable pub setup_args : ℕ → ℕ → Config → Dispenser → ℕ × Config × Dispenser
setup_args zero i g d = (i, g, d)
setup_args (suc f) i g d =
    let (d', more) = next_arg d in
    let rest = setup_args f (suc i) (configure i (val d') g) d' in if more then rest else (i, g, d')

-- What `setup` returns: the settings as it leaves them, with an error or without.
pub data SetUp : Type 0 where
  ready : Config → SetUp
  refused : Config → Error → SetUp
  spent : SetUp

-- The outer loop, with the count of the arguments so far.
unfoldable pub setup_from : ℕ → ℕ → Config → Dispenser → SetUp
unfolding setup_args
setup_from zero i g d = spent
setup_from (suc f) i g d =
    let (d', more) = Defs.next d in
    let (i', g', d'') = setup_args (length d.tokens) i g d' in
    if not more
    then ready g
    else if not (i' == 2)
    then refused g' (arg_err d'')
    else setup_from f i' g' d''

unfoldable pub setup : Config → Dispenser → SetUp
unfolding setup_from
setup g d = setup_from (suc (length d.tokens)) 0 g d
