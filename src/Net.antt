-- ===== src/Net.antt =====
-- `net.SplitHostPort`, as caddyhttp/proxy/policy.go and caddyhttp/httpserver/vhosttrie.go use it.
use iotacaddy.Prelude.{
  ℕ, suc, ◌+◌, Bool, true, false, not, ◌||◌, Option, none, some, [], ◌∷◌, ◌==◌, if◌then◌else◌, Text,
  length, take, drop,
}

abbrev next_position : Option ℕ → Option ℕ
next_position none = none
next_position (some n) = some (suc n)

-- The first position of a rune.
unfoldable pub position : ℕ → Text → Option ℕ
position c [] = none
position c (x ∷ xs) = if x == c then some 0 else next_position (position c xs)

-- The last position of a rune.
unfoldable pub last_position : ℕ → Text → Option ℕ
last_position c [] = none
last_position c (x ∷ xs) = elim (last_position c xs) [
  | some i ↦ some (suc i)
  | none ↦ if x == c then some 0 else none
]

abbrev has : ℕ → Text → Bool
has c s = elim (position c s) [ none ↦ false | some _ ↦ true ]

starts_bracketed : Text → Bool
starts_bracketed [] = false
starts_bracketed (c ∷ _) = c == b'['

-- The host and the port; `none` is an error.
unfoldable pub split_host_port : Text → Option (Text × Text)
unfolding position last_position starts_bracketed
split_host_port s = elim (last_position b':' s) [
  | none ↦ none
  | some i ↦
      if starts_bracketed s
      then elim (position b']' s) [
        | none ↦ none
        | some e ↦
            if e + 1 == length s || not (e + 1 == i)
            then none
            else if has b'[' (drop 1 s) || has b']' (drop (e + 1) s)
            then none
            else some (drop 1 (take e s), drop (i + 1) s)
      ]
      else if has b':' (take i s) || has b'[' s || has b']' s
      then none
      else some (take i s, drop (i + 1) s)
]
