-- ===== src/Dispenser/Lines.antt =====
-- `NextArg` and `NextLine` of caddyfile/dispenser.go against each other.
use iotacaddy.Prelude.{
  ◌+◌, ◌≤◌, true, false, not, some, ◌≡◌, refl, if◌then◌else◌, inl, inr, Bool-cases, arith,
  get_elem?, text_eq, text_eq_iff,
}
use iotacaddy.Lexer.Defs.{Token}
use iotacaddy.Dispenser.Defs.{
  Dispenser, current, advance, next_if, same_line, later_line, next_arg, next_line, line_breaks,
}

-- Within a file, the second token does not start before the first ends.
abbrev pub InOrder : Token → Token → Type 0
InOrder t u = t.file ≡ u.file → t.line + line_breaks t ≤ u.line

later_line-same_line : (t u : Token) → InOrder t u → later_line t u ≡ not (same_line t u)
unfolding later_line same_line
later_line-same_line t u h = elim (Bool-cases (text_eq t.file u.file)) [
  | inl e ↦ let h' = h ((text_eq_iff t.file u.file).0 e) in rw e (ground arith)
  | inr e ↦ rw e refl
]

-- With a token loaded and another behind it, in order, exactly one of `NextArg` and `NextLine`
-- loads that other token, and the one that does behaves as `Next`.
pub next_arg-next_line :
    (d : Dispenser) (t u : Token)
    → current d ≡ some t
    → get_elem? d.tokens d.loaded ≡ some u
    → InOrder t u
    → (next_arg d ≡ (if same_line t u then (advance d, true) else (d, false)))
      × (next_line d ≡ (if same_line t u then (d, false) else (advance d, true)))
unfolding next_arg next_line next_if
next_arg-next_line d t u c n h = ground (arith, later_line-same_line t u h)
