-- ===== src/Replacer/Body.antt =====
-- The writer of caddyhttp/httpserver/replacer.go that keeps the beginning of a body.
use iotacaddy.Prelude.{
  ℕ, zero, suc, ◌-◌, false, List, [], ◌∷◌, ◌++◌, ◌≡◌, refl, sym, ap, ◌∙◌, append-nil, append_assoc,
  take_all, ltb, ◌==◌, ==_iff, if◌then◌else◌, arith, Text, length, take, Bool-cases, inl, inr,
}
use iotacaddy.Replacer.Request.{LimitWriter, new_limit_writer, write, write_all}

abbrev pub joined : List Text → Text
joined [] = []
joined (p ∷ ps) = p ++ joined ps

take-append : (n : ℕ) (p q : Text) → take n (p ++ q) ≡ take n p ++ take (n - length p) q
take-append zero [] q = refl
take-append zero (c ∷ p) q = let e : 0 - suc (length p) ≡ 0 = omega arith in rw e refl
take-append (suc n) [] q = let e : suc n - 0 ≡ suc n = omega arith in rw e refl
take-append (suc n) (c ∷ p) q =
    let e : suc n - suc (length p) ≡ n - length p = omega arith in
    rw e (ap (λ r. c ∷ r) (take-append n p q))

-- What is written of a chunk.
kept-take : (n : ℕ) (p : Text) → (if ltb n (length p) then take n p else p) ≡ take n p
kept-take n p = elim (Bool-cases (ltb n (length p))) [
  | inl e ↦ rw e refl
  | inr e ↦ rw e (sym (take_all n p (ground arith)))
]

left_over : (n : ℕ) (p : Text) → n - length (take n p) ≡ n - length p
left_over zero p = omega arith
left_over (suc n) [] = refl
left_over (suc n) (c ∷ p) = omega (arith, left_over n p)

write-full : (w : LimitWriter) (p : Text) → w.remain ≡ 0 → write w p ≡ w
unfolding write
write-full w p e = ground arith

write-part :
    (w : LimitWriter) (p : Text)
    → (w.remain == 0) ≡ false
    → write w p ≡ record { written = w.written ++ take w.remain p; remain = w.remain - length p }
unfolding write
write-part w p e = rw e (
    ap (λ q. record { written = w.written ++ q; remain = w.remain - length q })
      (kept-take w.remain p)
    ∙ ap (λ n. record { written = w.written ++ take w.remain p; remain = n })
        (left_over w.remain p))

write_all-take :
    (ps : List Text) (w : LimitWriter)
    → (write_all w ps).written ≡ w.written ++ take w.remain (joined ps)
unfolding write_all
write_all-take [] w =
    sym (ap (λ q. w.written ++ q) (take_all w.remain [] (omega arith)) ∙ append-nil w.written)
write_all-take (p ∷ ps) w = elim (Bool-cases (w.remain == 0)) [
  | inl e ↦
      let z : w.remain ≡ 0 = ground (arith, ==_iff w.remain 0) in
      ap (λ v. (write_all v ps).written) (write-full w p z)
      ∙ write_all-take ps w
      ∙ ap (λ q. w.written ++ q)
          (ap (λ n. take n (joined ps)) z ∙ sym (ap (λ n. take n (p ++ joined ps)) z))
  | inr e ↦
      ap (λ v. (write_all v ps).written) (write-part w p e)
      ∙ write_all-take ps
          (record { written = w.written ++ take w.remain p; remain = w.remain - length p })
      ∙ append_assoc w.written (take w.remain p) (take (w.remain - length p) (joined ps))
      ∙ ap (λ q. w.written ++ q) (sym (take-append w.remain p (joined ps)))
]

-- Whatever the chunks are in which a body is read, the writer keeps its first bytes up to the limit.
pub write_all-joined :
    (n : ℕ) (ps : List Text) → (write_all (new_limit_writer n) ps).written ≡ take n (joined ps)
write_all-joined n ps = write_all-take ps (new_limit_writer n)
