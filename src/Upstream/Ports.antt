-- ===== src/Upstream/Ports.antt =====
-- `parseUpstream` of caddyhttp/proxy/upstream.go, which writes out a range of ports.
use iotacaddy.Prelude.{
  ℕ, zero, suc, ◌+◌, ◌-◌, ◌/◌, ◌%◌, Bool, false, ◌||◌, Option, none, some, List, [], ◌∷◌, ◌++◌, map,
  ltb, leb, ◌==◌, if◌then◌else◌, Text, codes, length, take, drop, count,
}
use iotacaddy.Net.{position, last_position}
use iotacaddy.EnvVars.Defs.{has_prefix, index, slice}
use iotacaddy.VHost.Defs.{split}
use iotacaddy.Iota.Int.{ℤ, pos, atoi}

-- The digits of a number, as `%d` prints them; there are no more digits than the number says.
unfoldable pub decimal_from : ℕ → ℕ → Text → Text
decimal_from zero n acc = acc
decimal_from (suc f) n acc =
    let rest = decimal_from f (n / 10) ((b'0' + n % 10) ∷ acc) in if n == 0 then acc else rest

unfoldable pub decimal : ℕ → Text
unfolding decimal_from
decimal n = if n == 0 then b'0' ∷ [] else decimal_from n n []

-- The numbers from `n` on.
abbrev pub count_up : ℕ → ℕ → List ℕ
count_up zero n = []
count_up (suc k) n = n ∷ count_up k (suc n)

abbrev pub render : Text → Text → ℕ → Text
render us ue p = us ++ (b':' ∷ (decimal p ++ ue))

abbrev pub is_service : Text → Bool
is_service u = has_prefix u (codes "srv://") || has_prefix u (codes "srv+https://")

pub data Hosts : Type 0 where
  hosts : List Text → Hosts
  port_at_service many_separators bad_port empty_range : Hosts

-- The numbers are not negative, since a minus sign is a separator.
abbrev pub port_range : Text → Text → Option ℤ → Option ℤ → Hosts
port_range us ue (some (pos a)) (some (pos b)) =
    if leb b a then empty_range else hosts (map (render us ue) (count_up (suc (b - a)) a))
port_range us ue _ _ = bad_port

abbrev pub split_range : Text → Text → List Text → Hosts
split_range us ue (a ∷ b ∷ rest) = port_range us ue (atoi a) (atoi b)
split_range us ue _ = bad_port

abbrev pub end_of_ports : Text → ℕ → Option ℕ → ℕ
end_of_ports u colon none = length u
end_of_ports u colon (some slash) = colon + slash

-- The part behind the last colon, which stands at `colon`.
unfoldable pub parse_ports : Text → ℕ → Hosts
parse_ports u colon =
    let ports_end = end_of_ports u colon (position b'/' (drop colon u)) in
    let ports = slice u (colon + 1) ports_end in
    if count b'-' ports == 0
    then hosts (u ∷ [])
    else if ltb 1 (count b'-' ports)
    then many_separators
    else split_range (take colon u) (drop ports_end u) (split b'-' ports)

abbrev pub same_index : ℕ → Option ℕ → Bool
same_index i none = false
same_index i (some j) = i == j

unfoldable pub parse_upstream : Text → Hosts
unfolding parse_ports
parse_upstream u =
    if has_prefix u (codes "unix:") then hosts (u ∷ []) else elim (last_position b':' u) [
      | none ↦ hosts (u ∷ [])
      | some colon ↦
          if same_index colon (index u (codes "://"))
          then hosts (u ∷ [])
          else if is_service u
          then port_at_service
          else parse_ports u colon
    ]
