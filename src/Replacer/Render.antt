-- ===== src/Replacer/Render.antt =====
-- What `Replace` of caddyhttp/httpserver/replacer.go makes of a template.
use iotacaddy.Prelude.{
  ℕ, zero, suc, ◌<◌, true, Option, none, some, List, [], ◌∷◌, ◌++◌, ◌≡◌, refl, ap, ◌∙◌,
  append_assoc, arith, Text, length, length-append, All,
}
use iotacaddy.Replacer.Request.{Outside, Replacer}
use iotacaddy.Replacer.Defs.{get_substitution}
use iotacaddy.Replacer.Template.{
  trim_backslash, has_brace, Replaced, replaced, after_value, after_cut, replace_placeholders,
  replace_all,
}
use iotacaddy.Replacer.Cuts.{IsPlaced}
use iotacaddy.Replacer.Values.{Given, get_substitution-Given}
use iotacaddy.Replacer.Plain.{
  IsPlain, placed, unescape_braces-plain, unescape_braces-placed, trim_backslash-plain,
  placed-IsPlaced, has_brace-append, has_brace-plain, next_placeholder-none, length-placed,
  next_placeholder-placed,
}

-- Literal texts, each with the name of a placeholder behind it, and the last literal text.
abbrev pub Template : Type 0
Template = List (Text × Text)

abbrev pub render : Template → Text → Text
render [] end = end
render ((l, k) ∷ ps) end = l ++ (placed k ++ render ps end)

abbrev pub value_or_nil : Option Text → Text
value_or_nil none = []
value_or_nil (some v) = v

-- The template with the values of its placeholders.
abbrev pub expand : (Text → Option Text) → Template → Text → Text
expand value [] end = end
expand value ((l, k) ∷ ps) end = l ++ (value_or_nil (value (placed k)) ++ expand value ps end)

-- All literal texts and names are plain.
abbrev pub ArePlain : Template → Type 0
ArePlain = All (λ p. IsPlain p.0 × IsPlain p.1)

after_value-Given :
    (more : Text → Replaced) (result l : Text) (v : Option Text)
    → Given v
    → IsPlain l
    → after_value more result l v ≡ more (result ++ (l ++ value_or_nil v))
after_value-Given more result l none g h = absurd g
after_value-Given more result l (some v) g h =
    ap (λ q. more (result ++ (q ++ v)))
      (ap trim_backslash (unescape_braces-plain l h) ∙ trim_backslash-plain l h)

module _ (value : Text → Option Text)
    (given : (key : Text) → IsPlaced key → Given (value key)) where
  replace_placeholders-render :
      (ps : Template) (end result : Text) (f : ℕ)
      → ArePlain ps
      → IsPlain end
      → length (render ps end) < f
      → replace_placeholders f value (render ps end) result
        ≡ replaced (result ++ expand value ps end)
  unfolding replace_placeholders
  replace_placeholders-render ps end result zero h g l = absurd (omega arith)
  replace_placeholders-render [] end result (suc f) h g l =
      ap (after_cut value (λ rest t. replace_placeholders f value rest t) end result)
        (next_placeholder-none end g)
      ∙ ap (λ q. replaced (result ++ q)) (unescape_braces-plain end g)
  replace_placeholders-render ((a, k) ∷ ps) end result (suc f) ((ha, hk), h) g l =
      let loop = λ (rest t : Text). replace_placeholders f value rest t in
      let v = value_or_nil (value (placed k)) in
      let rest = render ps end in
      ap (after_cut value loop (a ++ (placed k ++ rest)) result)
        (next_placeholder-placed a k rest ha hk)
      ∙ ap (λ q. after_value (loop rest) result a (value q)) (unescape_braces-placed k hk)
      ∙ after_value-Given (loop rest) result a (value (placed k))
          (given (placed k) (placed-IsPlaced k)) ha
      ∙ replace_placeholders-render ps end (result ++ (a ++ v)) f h g (
          omega (
            arith,
            length-append a (placed k ++ rest),
            length-append (placed k) rest,
            length-placed k,
          ))
      ∙ ap replaced (
          append_assoc result (a ++ v) (expand value ps end)
          ∙ ap (λ q. result ++ q) (append_assoc a v (expand value ps end)))

render-has_brace :
    (l k : Text) (ps : Template) (end : Text) → has_brace (render ((l, k) ∷ ps) end) ≡ true
unfolding has_brace
render-has_brace l k ps end = has_brace-append l (placed k ++ render ps end) refl

-- A template of literal texts and placeholders, neither of them with braces or backslashes of their
-- own, is replaced piece by piece: the literal texts stay, and each placeholder gives way to the
-- value of its name, which is not itself searched for placeholders.
pub replace_all-render :
    (o : Outside) (r : Replacer) (ps : Template) (end : Text)
    → ArePlain ps
    → IsPlain end
    → replace_all o r (render ps end) ≡ replaced (expand (get_substitution o r) ps end)
unfolding replace_all
replace_all-render o r [] end h g = rw (has_brace-plain end g) refl
replace_all-render o r ((l, k) ∷ ps) end h g = rw (render-has_brace l k ps end) (
    replace_placeholders-render (get_substitution o r) (get_substitution-Given o r) ((l, k) ∷ ps)
      end [] (suc (length (render ((l, k) ∷ ps) end))) h g (omega arith))
