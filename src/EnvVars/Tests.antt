-- ===== src/EnvVars/Tests.antt =====
-- Environment variables at concrete texts, and the theorems where their hypotheses hold.
use iotacaddy.Prelude.{◌≤◌, none, some, ◌≡◌, refl, Text, codes, arith}
use iotacaddy.EnvVars.Defs.{
  Getenv, replace_env_vars, replace_env_references, reference_round, index, has_prefix,
  replace_from, unix_start, unix_end,
}
use iotacaddy.EnvVars.Total.{braces, replace_env_vars-end}

-- Every variable holds `80`.
abbrev eighty : Getenv
eighty name = codes "80"

-- Every variable holds a reference to `P`.
abbrev looping : Getenv
looping name = codes "{$P}"

replaces_both : replace_env_vars 4 eighty (codes "a:{%P%}{$P}{$}") ≡ some (codes "a:8080{$}")
unfolding replace_env_vars replace_env_references reference_round index has_prefix replace_from
replaces_both = refl

replace_env_vars-end_example :
    (s' : Text) × (replace_env_vars 2 eighty (codes "a:{$P}") ≡ some s')
    × (reference_round eighty unix_start unix_end s' ≡ none)
    × (braces s' ≤ 1)
replace_env_vars-end_example =
    replace_env_vars-end 2 eighty (codes "a:{$P}") (λ name. refl) (omega arith)
