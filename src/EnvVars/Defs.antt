-- ===== src/EnvVars/Defs.antt =====
-- `replaceEnvVars` and `replaceEnvReferences` of caddyfile/parse.go, with what they use of the
-- package strings. The environment is a function; the loop runs on fuel, and `none` is the end of
-- it.
use iotacaddy.Prelude.{
  ℕ, zero, suc, ◌+◌, ◌-◌, Bool, true, false, ◌&&◌, Option, none, some, [], ◌∷◌, ◌++◌, ltb, ◌==◌,
  if◌then◌else◌, Text, length, take, drop,
}

-- `strings.HasPrefix(s, pre)`.
unfoldable pub has_prefix : Text → Text → Bool
has_prefix s [] = true
has_prefix [] (_ ∷ _) = false
has_prefix (c ∷ s) (p ∷ pre) = c == p && has_prefix s pre

abbrev pub suc? : Option ℕ → Option ℕ
suc? none = none
suc? (some n) = some (suc n)

-- `strings.Index(s, pat)` for a pattern that is not empty.
unfoldable pub index : Text → Text → Option ℕ
index [] pat = none
index (c ∷ s) pat = if has_prefix (c ∷ s) pat then some 0 else suc? (index s pat)

-- `strings.Replace(s, old, new, -1)` for an `old` that is not empty; `skip` runes of an occurrence
-- are still to be passed over.
unfoldable pub replace_from : ℕ → Text → Text → Text → Text
replace_from skip [] old new = []
replace_from (suc k) (c ∷ s) old new = replace_from k s old new
replace_from zero (c ∷ s) old new = elim (has_prefix (c ∷ s) old) [
  | true ↦ new ++ replace_from (length old - 1) s old new
  | false ↦ c ∷ replace_from zero s old new
]

abbrev pub replace : Text → Text → Text → Text
replace = replace_from 0

-- `s[from:to]`.
abbrev pub slice : Text → ℕ → ℕ → Text
slice s from to = take (to - from) (drop from s)

abbrev pub Getenv : Type 0
Getenv = Text → Text

-- One round: `none` if the loop ends with `s` as it is.
unfoldable pub reference_round : Getenv → Text → Text → Text → Option Text
reference_round getenv start end s = elim (index s start) [
  | none ↦ none
  | some i ↦ elim (index (drop i s) end) [
    | none ↦ none
    | some j ↦
        if ltb (i + length start) (i + j)
        then some (
            replace s (slice s i (i + j + length end))
              (getenv (slice s (i + length start) (i + j))))
        else none
  ]
]

unfoldable pub replace_env_references : ℕ → Getenv → Text → Text → Text → Option Text
replace_env_references zero getenv start end s = none
replace_env_references (suc f) getenv start end s = elim (reference_round getenv start end s) [
  | none ↦ some s
  | some s' ↦ replace_env_references f getenv start end s'
]

abbrev pub windows_start : Text
windows_start = b'{' ∷ b'%' ∷ []

abbrev pub windows_end : Text
windows_end = b'%' ∷ b'}' ∷ []

abbrev pub unix_start : Text
unix_start = b'{' ∷ b'$' ∷ []

abbrev pub unix_end : Text
unix_end = b'}' ∷ []

unfoldable pub replace_env_vars : ℕ → Getenv → Text → Option Text
unfolding replace_env_references
replace_env_vars f getenv s = elim (replace_env_references f getenv windows_start windows_end s) [
  | none ↦ none
  | some s' ↦ replace_env_references f getenv unix_start unix_end s'
]
