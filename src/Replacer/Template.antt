-- ===== src/Replacer/Template.antt =====
-- `Replace` of caddyhttp/httpserver/replacer.go.
use iotacaddy.Prelude.{
  ℕ, zero, suc, ◌+◌, Bool, false, not, ◌||◌, Option, none, some, [], ◌∷◌, ◌++◌, ◌==◌, if◌then◌else◌,
  Text, codes, length, take, drop,
}
use iotacaddy.EnvVars.Defs.{suc?, replace, slice}
use iotacaddy.Replacer.Request.{Outside, Replacer}
use iotacaddy.Replacer.Defs.{get_substitution}

unfoldable pub unescape_braces : Text → Text
unescape_braces s = replace (replace s (codes "\\{") (codes "{")) (codes "\\}") (codes "}")

-- The first brace that is not escaped, rune by rune; the flag says that the rune in front is a
-- backslash. A brace behind an escaped one is not escaped.
unfoldable pub find_unescaped : ℕ → Bool → Text → Option ℕ
find_unescaped brace escaped [] = none
find_unescaped brace escaped (c ∷ s) =
    if c == brace
    then if escaped then suc? (find_unescaped brace false s) else some 0
    else suc? (find_unescaped brace (c == b'\\') s)

-- The text in front of the first placeholder, the placeholder, and the rest.
abbrev pub cut : Text → ℕ → Option ℕ → Option (Text × Text × Text)
cut s start none = none
cut s start (some n) = some (take start s, slice s start (start + n + 1), drop (start + n + 1) s)

unfoldable pub next_placeholder : Text → Option (Text × Text × Text)
next_placeholder s = elim (find_unescaped b'{' false s) [
  | none ↦ none
  | some start ↦ cut s start (find_unescaped b'}' false (drop start s))
]

-- `strings.TrimPrefix(s, "\\")`.
abbrev pub trim_backslash : Text → Text
trim_backslash [] = []
trim_backslash (c ∷ s) = if c == b'\\' then s else c ∷ s

unfoldable pub has_brace : Text → Bool
has_brace [] = false
has_brace (c ∷ s) = c == b'{' || (c == b'}' || has_brace s)

pub data Replaced : Type 0 where
  replaced : Text → Replaced
  crashed spent : Replaced

-- A round of the loop; each takes runes off the text.
abbrev pub after_value : (Text → Replaced) → Text → Text → Option Text → Replaced
after_value more result before none = crashed
after_value more result before (some v) =
    more (result ++ (trim_backslash (unescape_braces before) ++ v))

abbrev pub after_cut :
    (Text → Option Text)
    → (Text → Text → Replaced)
    → Text
    → Text
    → Option (Text × Text × Text)
    → Replaced
after_cut value loop s result none = replaced (result ++ unescape_braces s)
after_cut value loop s result (some (before, placeholder, rest)) =
    after_value (loop rest) result before (value (unescape_braces placeholder))

unfoldable pub replace_placeholders : ℕ → (Text → Option Text) → Text → Text → Replaced
replace_placeholders zero value s result = spent
replace_placeholders (suc f) value s result =
    after_cut value (λ rest result'. replace_placeholders f value rest result') s result
      (next_placeholder s)

unfoldable pub replace_all : Outside → Replacer → Text → Replaced
replace_all o r s =
    if not (has_brace s)
    then replaced s
    else replace_placeholders (suc (length s)) (get_substitution o r) s []
