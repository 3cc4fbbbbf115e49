-- ===== src/Iota/Guards.antt =====
-- What the interceptor of iota/plugin.go lets through.
use iotacaddy.Prelude.{
  ℕ, ◌-◌, ◌/◌, ◌<◌, Bool, true, false, not, Option, none, some, List, [], ◌∷◌, ◌≡◌, ◌≢◌, refl, ◌⊎◌,
  inl, inr, Bool-cases, Option-cases, if◌then◌else◌, arith, Text, text_eq, text_eq_iff, length, All,
}
use iotacaddy.Iota.Int.{pos, less}
use iotacaddy.Iota.Defs.{
  AttachToTangleReq, Library, Body, Request, Config, forwarded, answered, post, attach_to_tangle,
  drained, with_body, all_transactions, answer, attach, dispatch, serve_http,
}

-- What a call must meet for proof of work to be done.
pub record IsAllowed (l : Library) (g : Config) (c : AttachToTangleReq) : Type 0 where
  pub command_is : c.command ≡ attach_to_tangle
  pub weight_not_above : less g.max_mwm c.mwm ≡ false
  pub weight_not_below : less c.mwm (pos 0) ≡ false
  pub bundle_nonempty : 0 < length c.trytes
  pub bundle_in_limit : less g.max_tx_in_bundle (pos (length c.trytes)) ≡ false
  pub transactions : All (λ t. l.is_transaction t ≡ true) c.trytes

all_transactions-All :
    (l : Library) (ts : List Text)
    → all_transactions l ts ≡ true
    → All (λ t. l.is_transaction t ≡ true) ts
unfolding all_transactions
all_transactions-All l [] h = tt
all_transactions-All l (t ∷ ts) h = (ground arith, all_transactions-All l ts (ground arith))

-- The call whose proof of work an answer holds.
pub record Answers (l : Library) (g : Config) (started stopped : ℕ) (r : Request) (bytes : Text)
    : Type 0 where
  pub contents : Text
  pub call : AttachToTangleReq
  pub bundle : List Text
  pub method_is : r.method ≡ post
  pub body_is : r.body ≡ some (record { unread = contents; broken = false })
  pub decoded : l.unmarshal contents ≡ some call
  pub allowed : IsAllowed l g call
  pub worked : l.do_pow call.trunk_tx_hash call.branch_tx_hash call.trytes call.mwm ≡ some bundle
  pub encoded :
      l.marshal (record { trytes = bundle; duration = (stopped - started) / 1000000 }) ≡ some bytes

module _ (l : Library) (g : Config) (started stopped : ℕ) (writes : Bool) where
  answer-answered :
      (c : AttachToTangleReq) (bytes : Text)
      → answer l started stopped writes c ≡ answered bytes
      → (bundle : List Text) × (l.do_pow c.trunk_tx_hash c.branch_tx_hash c.trytes c.mwm
          ≡ some bundle)
        × (l.marshal (record { trytes = bundle; duration = (stopped - started) / 1000000 })
            ≡ some bytes)
  unfolding answer
  answer-answered c bytes h = ground arith

  answer-forwarded :
      (c : AttachToTangleReq) (r : Request) → answer l started stopped writes c ≢ forwarded r
  unfolding answer
  answer-forwarded c r h = ground arith

  attach-answered :
      (r : Request) (c : AttachToTangleReq) (bytes : Text)
      → text_eq c.command attach_to_tangle ≡ true
      → attach l g started stopped writes r c ≡ answered bytes
      → IsAllowed l g c × (answer l started stopped writes c ≡ answered bytes)
  unfolding attach
  attach-answered r c bytes e h = (
    record {
      command_is = (text_eq_iff c.command attach_to_tangle).0 e;
      weight_not_above = ground arith;
      weight_not_below = ground arith;
      bundle_nonempty = ground arith;
      bundle_in_limit = ground arith;
      transactions = all_transactions-All l c.trytes (ground arith);
    },
    ground arith,
  )

  dispatch-answered :
      (r : Request) (contents bytes : Text)
      → dispatch l g started stopped writes r contents ≡ answered bytes
      → (c : AttachToTangleReq) × (l.unmarshal contents ≡ some c)
        × IsAllowed l g c
        × (answer l started stopped writes c ≡ answered bytes)
  unfolding dispatch
  dispatch-answered r contents bytes h = decoded_as (l.unmarshal contents) refl h
    where
      decoded_as :
          (o : Option AttachToTangleReq)
          → l.unmarshal contents ≡ o
          → (elim o [
            | none ↦ forwarded (drained r)
            | some c ↦
                if not (text_eq c.command attach_to_tangle)
                then forwarded (with_body r contents)
                else attach l g started stopped writes (with_body r contents) c
          ])
            ≡ answered bytes
          → (c : AttachToTangleReq) × (l.unmarshal contents ≡ some c)
            × IsAllowed l g c
            × (answer l started stopped writes c ≡ answered bytes)
      decoded_as none e h = absurd (cc)
      decoded_as (some c) e h = elim (Bool-cases (text_eq c.command attach_to_tangle)) [
        | inr n ↦ absurd (ground arith)
        | inl y ↦
            let h' : attach l g started stopped writes (with_body r contents) c ≡ answered bytes =
              rw y at h in
            let (a, w) = attach-answered (with_body r contents) c bytes y h' in (c, e, a, w)
      ]

  -- An answer with status 200 is the result of the proof of work for a POST whose body decodes to
  -- an `attachToTangle` call, whose weight is from 0 to the limit, which has transactions, no more
  -- than the limit, all of which are well formed.
  pub serve_http-Answers :
      (r : Request) (bytes : Text)
      → serve_http l g started stopped writes r ≡ answered bytes
      → Answers l g started stopped r bytes
  unfolding serve_http
  serve_http-Answers r bytes h = with_method (Bool-cases (text_eq r.method post))
    where
      with_contents :
          (b : Body)
          → r.body ≡ some b
          → b.broken ≡ false
          → text_eq r.method post ≡ true
          → dispatch l g started stopped writes r b.unread ≡ answered bytes
          → Answers l g started stopped r bytes
      with_contents b e k m h =
          let (c, d, a, w) = dispatch-answered r b.unread bytes h in
          let (bundle, p, q) = answer-answered c bytes w in
          record {
            contents = b.unread;
            call = c;
            bundle = bundle;
            method_is = (text_eq_iff r.method post).0 m;
            body_is = ground arith;
            decoded = d;
            allowed = a;
            worked = p;
            encoded = q;
          }

      with_method :
          (text_eq r.method post ≡ true) ⊎ (text_eq r.method post ≡ false)
          → Answers l g started stopped r bytes
      with_method (inr n) = absurd (ground arith)
      with_method (inl m) = elim (Option-cases r.body) [
        | inl e ↦ absurd (ground arith)
        | inr (b, e) ↦ elim (Bool-cases b.broken) [
          | inl k ↦ absurd (ground arith)
          | inr k ↦ with_contents b e k m (ground arith)
        ]
      ]

  -- A POST whose body does not decode is passed on to the next handler, but with its body read to
  -- the end: that handler sees an empty body, whatever was sent.
  pub serve_http_undecoded :
      (r : Request) (contents : Text)
      → r.method ≡ post
      → r.body ≡ some (record { unread = contents; broken = false })
      → l.unmarshal contents ≡ none
      → serve_http l g started stopped writes r ≡ forwarded (drained r)
  unfolding serve_http dispatch
  serve_http_undecoded r contents m b u = ground (arith, text_eq_iff r.method post)

  attach-forwarded :
      (r r' : Request) (c : AttachToTangleReq)
      → attach l g started stopped writes r c ≡ forwarded r'
      → r' ≡ r
  unfolding attach
  attach-forwarded r r' c h = ground (arith, answer-forwarded c r')

  dispatch-forwarded :
      (r r' : Request) (contents : Text)
      → dispatch l g started stopped writes r contents ≡ forwarded r'
      → (r' ≡ with_body r contents) ⊎ ((l.unmarshal contents ≡ none) × (r' ≡ drained r))
  unfolding dispatch
  dispatch-forwarded r r' contents h = elim (Option-cases (l.unmarshal contents)) [
    | inl e ↦ inr (e, ground arith)
    | inr (c, e) ↦ inl (ground (arith, attach-forwarded (with_body r contents) r' c))
  ]

  same_request :
      (r r' : Request) (b : Body)
      → r.body ≡ some b
      → b.broken ≡ false
      → r' ≡ with_body r b.unread
      → r' ≡ r
  same_request r r' b e k h = ground arith

  -- Whatever is passed on reaches the next handler as it came, or it is a request whose body does
  -- not decode, and then that body was read to the end.
  pub serve_http-forwarded :
      (r r' : Request)
      → serve_http l g started stopped writes r ≡ forwarded r'
      → (r' ≡ r)
        ⊎ ((contents : Text) × (r.body ≡ some (record { unread = contents; broken = false }))
            × (l.unmarshal contents ≡ none)
            × (r' ≡ drained r))
  unfolding serve_http
  serve_http-forwarded r r' h = elim (Bool-cases (text_eq r.method post)) [
    | inr n ↦ inl (ground arith)
    | inl m ↦ elim (Option-cases r.body) [
      | inl e ↦ absurd (ground arith)
      | inr (b, e) ↦ elim (Bool-cases b.broken) [
        | inl k ↦ absurd (ground arith)
        | inr k ↦ elim (dispatch-forwarded r r' b.unread (ground arith)) [
          | inl same ↦ inl (same_request r r' b e k same)
          | inr (u, d) ↦ inr (b.unread, ground arith, u, d)
        ]
      ]
    ]
  ]
