-- ===== src/Dispenser/Blocks.antt =====
-- `NextBlock` of caddyfile/dispenser.go as the condition of a loop.
use iotacaddy.Prelude.{
  ℕ, zero, suc, ◌+◌, ◌-◌, ◌≤◌, ◌<◌, true, false, some, List, [], ◌∷◌, ◌++◌, map, ◌≡◌, refl, ◌∙◌,
  if◌then◌else◌, arith, Text, length, get_elem?, text_eq, All, subst,
}
use iotacaddy.Lexer.Defs.{Token}
use iotacaddy.Dispenser.Defs.{
  Dispenser, current, advance, next, next_if, same_line, next_arg, next_block, enter_block, val,
  open_brace, close_brace,
}
use iotacaddy.Dispenser.Cursor.{ahead, Nexts, next-Nexts}

-- `for d.NextBlock() { … d.Val() … }` on fuel: the texts that the body sees.
unfoldable pub block_vals : ℕ → Dispenser → Dispenser × List Text
block_vals zero d = (d, [])
block_vals (suc f) d =
    let (d', more) = next_block d in
    let rest = block_vals f d' in if more then (rest.0, val d' ∷ rest.1) else (d', [])

abbrev IsInner : Token → Type 0
IsInner t = text_eq t.text close_brace ≡ false

ahead_cons :
    (d : Dispenser) (t : Token) (ts : List Token)
    → ahead d ≡ t ∷ ts
    → (val (advance d) ≡ t.text)
      × (next d ≡ (advance d, true))
      × (ahead (advance d) ≡ ts)
      × (get_elem? d.tokens d.loaded ≡ some t)
unfolding val
ahead_cons d t ts a =
    let h = subst (λ l. Nexts d l (next d)) a (next-Nexts d) in
    let c : current (advance d) ≡ some t = rw (h.0) at (h.1) in (rw c, h.0, rw (h.0) at (h.2), c)

inside :
    (d : Dispenser) (t : Token) (ts : List Token)
    → 0 < d.nesting
    → ahead d ≡ t ∷ ts
    → next_block d ≡ (
        if text_eq t.text close_brace
        then (record (advance d) { nesting = d.nesting - 1 }, false)
        else (advance d, true))
unfolding next_block
inside d t ts n a = let h = ahead_cons d t ts a in ground (arith, h.0, h.1)

block_vals-inner :
    (f : ℕ) (d : Dispenser) (body : List Token) (c : Token) (more : List Token)
    → 0 < d.nesting
    → ahead d ≡ body ++ (c ∷ more)
    → All IsInner body
    → text_eq c.text close_brace ≡ true
    → length body < f
    → block_vals f d ≡ (
      record d { loaded = length body + suc d.loaded; nesting = d.nesting - 1 },
      map (λ (t : Token). t.text) body,
    )
unfolding block_vals
block_vals-inner zero d body c more n a i e h = absurd (omega arith)
block_vals-inner (suc f) d [] c more n a i e h = ground (arith, inside d c more n a)
block_vals-inner (suc f) d (t ∷ body) c more n a (i, is) e h =
    let here = ahead_cons d t (body ++ (c ∷ more)) a in
    ground (
      arith,
      inside d t (body ++ (c ∷ more)) n a,
      here.0,
      block_vals-inner f (advance d) body c more n here.2 is e (omega arith),
    )

opens :
    (d : Dispenser) (t o b : Token) (ts : List Token)
    → d.nesting ≡ 0
    → current d ≡ some t
    → ahead d ≡ o ∷ (b ∷ ts)
    → same_line t o ≡ true
    → text_eq o.text open_brace ≡ true
    → next_block d ≡ (
        if text_eq b.text close_brace
        then (advance (advance d), false)
        else (record (advance (advance d)) { nesting = 1 }, true))
unfolding next_block enter_block next_arg next_if
opens d t o b ts n c a s e =
    let h = ahead_cons d o (b ∷ ts) a in
    let k = ahead_cons (advance d) b ts h.2 in ground (arith, h.0, h.3, k.0, k.1)

-- A loop over `NextBlock`, started on a directive with `{` behind it on its line, sees exactly the
-- tokens up to the first `}`, in order, ends on that `}`, and leaves the nesting at 0.
pub block_vals-block :
    (f : ℕ) (d : Dispenser) (t o : Token) (body : List Token) (c : Token) (more : List Token)
    → d.nesting ≡ 0
    → current d ≡ some t
    → ahead d ≡ o ∷ (body ++ (c ∷ more))
    → same_line t o ≡ true
    → text_eq o.text open_brace ≡ true
    → All IsInner body
    → text_eq c.text close_brace ≡ true
    → length body < f
    → block_vals f d
      ≡ (record d { loaded = length body + suc (suc d.loaded) }, map (λ (t : Token). t.text) body)
unfolding block_vals
block_vals-block zero d t o body c more n cur a s e i k h = absurd (omega arith)
block_vals-block (suc f) d t o [] c more n cur a s e i k h =
    ground (arith, opens d t o c more n cur a s e)
block_vals-block (suc f) d t o (b ∷ body) c more n cur a s e (i, is) k h =
    let d' = record (advance (advance d)) { nesting = 1 } in
    let here = ahead_cons d o (b ∷ (body ++ (c ∷ more))) a in
    let there = ahead_cons (advance d) b (body ++ (c ∷ more)) here.2 in
    let nb : next_block d ≡ (d', true) =
      opens d t o b (body ++ (c ∷ more)) n cur a s e ∙ rw i refl in
    let ih = block_vals-inner f d' body c more (omega arith) there.2 is k (omega arith) in
    let v : val d' ≡ b.text = unfold val in there.0 in ground (arith, nb, ih, v)

-- Inside a block whose closing brace is missing, `NextBlock` on the last token reports a token,
-- and moves nothing: a loop over it does not end.
pub next_block_stuck :
    (d : Dispenser)
    → 0 < d.nesting
    → length d.tokens ≤ d.loaded
    → text_eq (val d) close_brace ≡ false
    → next_block d ≡ (d, true)
unfolding next_block next
next_block_stuck d n l h = ground arith
