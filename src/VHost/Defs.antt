-- ===== src/VHost/Defs.antt =====
-- The trie of virtual hosts of caddyhttp/httpserver/vhosttrie.go, over a type of sites. A key is a
-- list of bytes; an edge below a host carries one byte. A node is a value here: the code keeps
-- each node behind one edge only.
use iotacaddy.Prelude.{
  ℕ, ◌+◌, Option, none, some, List, [], ◌∷◌, ◌++◌, map, ◌==◌, if◌then◌else◌, Text, codes, text_eq,
  take, drop,
}
use iotacaddy.Net.{split_host_port, position}

mutual
  -- `site` and `path` are set together, by `insertPath`; `fallbackHosts` is the same everywhere.
  pub data Node (S : Type 0) : Type 0 where
    node : Option S → Text → Edges S → Node S

  pub data Edges (S : Type 0) : Type 0 where
    leaf : Edges S
    edge : Text → Node S → Edges S → Edges S

abbrev pub site_of : {S : Type 0} → Node S → Option S
site_of (node s p e) = s

abbrev pub path_of : {S : Type 0} → Node S → Text
path_of (node s p e) = p

abbrev pub edges_of : {S : Type 0} → Node S → Edges S
edges_of (node s p e) = e

-- `newVHostTrie`.
abbrev pub new_trie : {S : Type 0} → Node S
new_trie = node none [] leaf

abbrev pub fallback_hosts : List Text
fallback_hosts = codes "0.0.0.0" ∷ codes "[::]" ∷ [] ∷ []

-- `t.edges[key]`.
unfoldable pub lookup : {S : Type 0} → Text → Edges S → Option (Node S)
lookup key leaf = none
lookup key (edge k n es) = if text_eq k key then some n else lookup key es

-- `t.edges[key] = n`.
unfoldable pub put : {S : Type 0} → Text → Node S → Edges S → Edges S
put key n leaf = edge key n leaf
put key n (edge k m es) = if text_eq k key then edge k n es else edge k m (put key n es)

abbrev pub or_new : {S : Type 0} → Option (Node S) → Node S
or_new none = new_trie
or_new (some n) = n

unfoldable pub insert_path : {S : Type 0} → Text → Text → S → Node S → Node S
insert_path [] original s (node _ _ es) = node (some s) original es
insert_path (c ∷ cs) original s (node s' p es) =
    node s' p (put (c ∷ []) (insert_path cs original s (or_new (lookup (c ∷ []) es))) es)

abbrev pub if_site : {S : Type 0} → Node S → Option (Node S) → Option (Node S)
if_site n other = elim (site_of n) [ none ↦ other | some _ ↦ some n ]

-- The loop of `matchPath`, with the longest match so far.
unfoldable pub match_path_from : {S : Type 0} → Option (Node S) → Text → Node S → Option (Node S)
match_path_from longest [] t = longest
match_path_from longest (c ∷ cs) t = elim (lookup (c ∷ []) (edges_of t)) [
  | none ↦ longest
  | some n ↦ match_path_from (if_site n longest) cs n
]

unfoldable pub match_path : {S : Type 0} → Text → Node S → Option (Node S)
unfolding match_path_from
match_path = match_path_from none

-- `strings.Split(s, sep)` for a separator of one rune.
unfoldable pub split_from : ℕ → Text → Text → List Text
split_from sep acc [] = acc ∷ []
split_from sep acc (c ∷ cs) =
    if c == sep then acc ∷ split_from sep [] cs else split_from sep (acc ++ (c ∷ [])) cs

abbrev pub split : ℕ → Text → List Text
split sep = split_from sep []

-- `strings.Join(labels, ".")`.
unfoldable pub join : List Text → Text
join [] = []
join (l ∷ []) = l
join (l ∷ m ∷ ls) = l ++ (b'.' ∷ join (m ∷ ls))

-- The candidates of `matchHost`: the first labels are replaced by wildcards, one more in each
-- round.
unfoldable pub wildcards : List Text → List Text → List Text
wildcards stars [] = []
wildcards stars (l ∷ ls) =
    let stars' = stars ++ ((b'*' ∷ []) ∷ []) in join (stars' ++ ls) ∷ wildcards stars' ls

unfoldable pub first_of_keys : {S : Type 0} → List Text → Edges S → Option (Node S)
first_of_keys [] es = none
first_of_keys (k ∷ ks) es = elim (lookup k es) [ some n ↦ some n | none ↦ first_of_keys ks es ]

unfoldable pub match_host : {S : Type 0} → Text → Edges S → Option (Node S)
unfolding first_of_keys wildcards
match_host host es = first_of_keys (host ∷ wildcards [] (split b'.' host)) es

-- The given host, then the fallback hosts.
unfoldable pub first_host : {S : Type 0} → List Text → Edges S → Option (Node S)
unfolding match_host
first_host [] es = none
first_host (h ∷ hs) es = elim (match_host h es) [ some n ↦ some n | none ↦ first_host hs es ]

-- `strings.SplitN(key, "/", 2)`, the slash put back in front of the path.
unfoldable pub split_key : Text → Text × Text
split_key key = elim (position b'/' key) [
  | none ↦ (key, b'/' ∷ [])
  | some i ↦ (take i key, b'/' ∷ drop (i + 1) key)
]

unfoldable pub strip_port : Text → Text
strip_port host = elim (split_host_port host) [ none ↦ host | some (h, port) ↦ h ]

-- `splitHostPath`; `lower` is `unicode.ToLower`.
unfoldable pub split_host_path : (ℕ → ℕ) → Text → Text × Text
unfolding split_key strip_port
split_host_path lower key =
    let (before, path) = split_key key in (strip_port (map lower before), path)

unfoldable pub insert : {S : Type 0} → (ℕ → ℕ) → Text → S → Node S → Node S
insert lower key s t =
    let (host, path) = split_host_path lower key in
    node (site_of t) (path_of t)
      (put host (insert_path path path s (or_new (lookup host (edges_of t)))) (edges_of t))

-- The last line of `Match`, on the node that was found.
abbrev pub result : {S : Type 0} → Option (Node S) → Option S × Text
result none = (none, [])
result (some n) = (site_of n, path_of n)

abbrev pub in_branch : {S : Type 0} → Text → Option (Node S) → Option S × Text
in_branch path none = (none, [])
in_branch path (some branch) = result (match_path path branch)

-- `Match`: the site and the path of its key.
unfoldable pub match_key : {S : Type 0} → (ℕ → ℕ) → Text → Node S → Option S × Text
match_key lower key t =
    let (host, path) = split_host_path lower key in
    in_branch path (first_host (host ∷ fallback_hosts) (edges_of t))
