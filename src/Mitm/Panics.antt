-- ===== src/Mitm/Panics.antt =====
-- Where the handler of caddyhttp/httpserver/mitm.go panics.
use iotacaddy.Prelude.{
  ℕ, suc, ◌+◌, ◌≤◌, Bool, true, false, not, ◌&&◌, Option, none, some, List, [], ◌∷◌, ◌≡◌, ◌↔◌, refl,
  ap, ◌∙◌, if◌then◌else◌, ltb, ◌==◌, arith, length, get_elem?, Bool-cases, inl, inr, Text, codes,
}
use iotacaddy.Conditions.Defs.{contains}
use iotacaddy.Mitm.Wire.{◌>>=◌, Returns, Returns-some, Returns-bind, Returns-if, Returns-get}
use iotacaddy.Mitm.Defs.{RawHello}
use iotacaddy.Mitm.Looks.{
  assert_presence_and_ordering, same_from, more_curves, firefox_extensions, firefox_curves,
  firefox_ciphers, looks_like_firefox, tor_extensions, tor_curves, session_ticket, member,
  info_curves, looks_like_tor, looks_like_edge, looks_like_chrome, looks_like_safari,
}
use iotacaddy.Mitm.Handler.{
  Floats, Request, is_marked, says_edge, is_tor_version, assess, info_of, serve_http, checked,
  outcome, Verdict, likely, unknown, verdict,
}

-- The tests of `looksLikeFirefox` behind that of the extensions.
abbrev curves_and : List ℕ → Bool → Option Bool
curves_and curves ciphers = if ltb (length curves) (length firefox_curves) then some false else do
  same ← same_from 0 curves firefox_curves
  if not same
      then some false
      else do more ← more_curves curves; if not more then some false else some ciphers

abbrev five_curves : List ℕ
five_curves = 29 ∷ 23 ∷ 24 ∷ 25 ∷ 256 ∷ []

curves_and-none : (curves : List ℕ) (w : Bool) → curves_and curves w ≡ none → curves ≡ five_curves
unfolding same_from more_curves
curves_and-none [] w h = absurd (cc)
curves_and-none (a ∷ []) w h = absurd (cc)
curves_and-none (a ∷ b ∷ []) w h = absurd (cc)
curves_and-none (a ∷ b ∷ c ∷ []) w h = absurd (cc)
curves_and-none (a ∷ b ∷ c ∷ d ∷ []) w h = ground arith
curves_and-none (a ∷ b ∷ c ∷ d ∷ e ∷ []) w h = ground arith
curves_and-none (a ∷ b ∷ c ∷ d ∷ e ∷ f ∷ cs) w h = ground arith

-- The hello on which the test for Firefox panics: its extensions are those of Firefox, and it has
-- exactly five curves, the four required ones and 256.
pub IsShort : RawHello → Type 0
IsShort info =
    (assert_presence_and_ordering firefox_extensions info.extensions true ≡ true)
    × (info.curves ≡ 29 ∷ 23 ∷ 24 ∷ 25 ∷ 256 ∷ [])

five_panic : (w : Bool) → curves_and five_curves w ≡ none
unfolding same_from more_curves
five_panic w = refl

looks_like_firefox-IsShort : (info : RawHello) → (looks_like_firefox info ≡ none) ↔ IsShort info
unfolding looks_like_firefox IsShort
looks_like_firefox-IsShort info =
    elim (Bool-cases (assert_presence_and_ordering firefox_extensions info.extensions true)) [
      | inl e ↦ rw e (
        λ h. (refl, curves_and-none info.curves (firefox_ciphers info) h),
        λ (e', k).
            ap (λ cs. curves_and cs (firefox_ciphers info)) k ∙ five_panic (firefox_ciphers info),
      )
      | inr e ↦ rw e (λ h. absurd (cc), λ (e', k). absurd (cc))
    ]

same_from-Returns :
    (i : ℕ) (xs expected : List ℕ)
    → i + length expected ≤ length xs
    → Returns (same_from i xs expected)
unfolding same_from
same_from-Returns i xs [] h = Returns-some true
same_from-Returns i xs (e ∷ expected) h =
    Returns-bind (get_elem? xs i) _ (Returns-get xs i (omega arith)) λ x e'.
      Returns-if (x == e) _ _ (λ g. same_from-Returns (suc i) xs expected (omega arith))
        λ g. Returns-some false

looks_like_tor-Returns : (info : RawHello) → Returns (looks_like_tor info)
unfolding looks_like_tor
looks_like_tor-Returns info =
    Returns-if (not (assert_presence_and_ordering tor_extensions info.extensions true)) _ _
      (λ e. Returns-some _)
      λ e.
        Returns-if (member session_ticket info.extensions) _ _ (λ e'. Returns-some _)
          λ e'. on_curves (info_curves info.curves)
  where
    on_curves :
        (o : Option (List ℕ))
        → Returns (elim o [
          | none ↦ some false
          | some curves ↦ if ltb (length curves) (length tor_curves) then some false else do
            same ← same_from 0 curves tor_curves
            if not same then some false else some (firefox_ciphers info)
        ])
    on_curves none = Returns-some _
    on_curves (some curves) =
        Returns-if (ltb (length curves) (length tor_curves)) _ _ (λ e. Returns-some _)
          λ e.
            Returns-bind (same_from 0 curves tor_curves) _
              (same_from-Returns 0 curves tor_curves (ground arith))
              λ b e'. Returns-if (not b) _ _ (λ g. Returns-some _) λ g. Returns-some _

-- A request that gets as far as the test for Firefox.
pub record TestsFirefox {F : Type 0} (fl : Floats F) (r : Request) (info : RawHello) : Type 0 where
  pub unmarked : is_marked r info ≡ false
  pub no_edge : says_edge r.user_agent ≡ false
  pub no_chrome : contains r.user_agent (codes "Chrome") ≡ false
  pub no_crios : contains r.user_agent (codes "CriOS") ≡ false
  pub firefox : contains r.user_agent (codes "Firefox") ≡ true
  pub no_tor : is_tor_version fl r.user_agent ≡ false

-- The chain of the tests, on their results.
abbrev chain :
    (a b c d e t s : Bool) → (v w x y : Verdict) → (tor fox : Option Bool) → Option Verdict
chain a b c d e t s v w x y tor fox =
    if a
    then some likely
    else if b
    then some v
    else if c
    then some w
    else if d
    then some x
    else if e
    then (if t then checked tor else checked fox)
    else if s
    then some y
    else some unknown

chain-none :
    (a b c d e t s : Bool) (v w x y : Verdict) (tor fox : Option Bool)
    → Returns tor
    → chain a b c d e t s v w x y tor fox ≡ none
    → ((a ≡ false) × (b ≡ false) × (c ≡ false) × (d ≡ false) × (e ≡ true) × (t ≡ false))
      × (fox ≡ none)
chain-none true b c d e t s v w x y tor fox r h = absurd (cc)
chain-none false true c d e t s v w x y tor fox r h = absurd (cc)
chain-none false false true d e t s v w x y tor fox r h = absurd (cc)
chain-none false false false true e t s v w x y tor fox r h = absurd (cc)
chain-none false false false false true true s v w x y none fox r h =
    absurd (let e = r.is_value in cc)
chain-none false false false false true true s v w x y (some b) fox r h = absurd (cc)
chain-none false false false false true false s v w x y tor none r h =
    ((refl, refl, refl, refl, refl, refl), refl)
chain-none false false false false true false s v w x y tor (some b) r h = absurd (cc)
chain-none false false false false false t true v w x y tor fox r h = absurd (cc)
chain-none false false false false false t false v w x y tor fox r h = absurd (cc)

assess-none :
    {F : Type 0} (fl : Floats F) (r : Request) (info : RawHello)
    → (assess fl r info ≡ none) ↔ (TestsFirefox fl r info × IsShort info)
unfolding assess
assess-none fl r info = (
  λ h.
      let ((a, b, c, d, e, t), k) =
        chain-none (is_marked r info) (says_edge r.user_agent)
          (contains r.user_agent (codes "Chrome")) (contains r.user_agent (codes "CriOS"))
          (contains r.user_agent (codes "Firefox")) (is_tor_version fl r.user_agent)
          (contains r.user_agent (codes "Safari")) (verdict (not (looks_like_edge info)))
          (verdict (not (looks_like_chrome info)))
          (verdict (not (looks_like_chrome info) && not (looks_like_safari info)))
          (verdict (not (looks_like_safari info))) (looks_like_tor info) (looks_like_firefox info)
          (looks_like_tor-Returns info) h in
      (
        record { unmarked = a; no_edge = b; no_chrome = c; no_crios = d; firefox = e; no_tor = t },
        (looks_like_firefox-IsShort info).0 k,
      ),
  λ (t, s).
      rw (t.unmarked, t.no_edge, t.no_chrome, t.no_crios, t.firefox, t.no_tor)
        (rw ((looks_like_firefox-IsShort info).1 s) refl),
)

bind-none :
    (o : Option Verdict) (close : Bool) → ((o >>= λ v. some (outcome close v)) ≡ none) ↔ (o ≡ none)
bind-none none close = (λ h. refl, λ h. refl)
bind-none (some v) close = (λ h. absurd (cc), λ h. absurd (cc))

-- With a listener, the handler panics on a request if and only if the request gets as far as the
-- test for Firefox, and its hello has the extensions of Firefox in order and exactly the five
-- curves 29, 23, 24, 25 and 256.
pub serve_http-none :
    {F : Type 0} (fl : Floats F) (infos : Text → Option RawHello) (close : Bool) (r : Request)
    → (serve_http fl (some infos) close r ≡ none)
      ↔ (TestsFirefox fl r (info_of infos r.remote_addr) × IsShort (info_of infos r.remote_addr))
unfolding serve_http
serve_http-none fl infos close r =
    let info = info_of infos r.remote_addr in
    (
      λ h. (assess-none fl r info).0 ((bind-none (assess fl r info) close).0 h),
      λ h. (bind-none (assess fl r info) close).1 ((assess-none fl r info).1 h),
    )
