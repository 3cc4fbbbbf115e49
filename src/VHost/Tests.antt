-- ===== src/VHost/Tests.antt =====
-- The trie of virtual hosts at concrete keys, and its theorems where their hypotheses hold.
use iotacaddy.Prelude.{ℕ, none, some, List, [], ◌∷◌, ◌≡◌, refl, Text, codes, text_eq}
use iotacaddy.Net.{position, last_position, split_host_port}
use iotacaddy.VHost.Defs.{
  fallback_hosts, strip_port, first_host, match_host, first_of_keys, wildcards, split_from, join,
  lookup, put, match_path_from, Node, new_trie, insert, match_key, insert_path, match_path,
  split_host_path, split_key,
}
use iotacaddy.VHost.Paths.{entry, longest_from, site_in, match_path-longest}
use iotacaddy.VHost.Hosts.{match_key-insert}
use iotacaddy.VHost.Sites.{build, candidates, found, find, match_key-find}

abbrev lower : ℕ → ℕ
lower c = c

-- A trie with two sites, below one host.
abbrev trie : Node ℕ
trie = insert lower (codes "a.b/foo") 1 (insert lower (codes "a.b") 2 new_trie)

-- The branch of paths alone.
abbrev branch : Node ℕ
branch =
    insert_path (codes "/foo") (codes "/foo") 1 (insert_path (codes "/") (codes "/") 2 new_trie)

match_key-insert_example : match_key lower (codes "a.b/foo") trie ≡ (some 1, codes "/foo")
unfolding split_host_path split_key position
match_key-insert_example =
    match_key-insert lower (codes "a.b/foo") 1 (insert lower (codes "a.b") 2 new_trie)

match_path-longest_example :
    site_in (match_path (codes "/fo") branch)
    ≡ longest_from none (λ p. entry p branch) (codes "/fo")
match_path-longest_example = match_path-longest (codes "/fo") branch

-- A wildcard, a fallback and a longer path below the wildcard.
abbrev sites : List (Text × ℕ)
sites = (codes "*.b/foo", 1) ∷ (codes "*.b", 2) ∷ (codes "0.0.0.0", 3) ∷ (codes "*.b", 4) ∷ []

wildcard_found : match_key lower (codes "a.b/x") (build lower sites) ≡ (some 2, codes "/")
unfolding match_key build insert split_host_path split_key strip_port split_host_port position
    last_position first_host match_host first_of_keys wildcards split_from join lookup put
    insert_path match_path match_path_from text_eq
wildcard_found = refl

fallback_found : match_key lower (codes "c/x") (build lower sites) ≡ (some 3, codes "/")
unfolding match_key build insert split_host_path split_key strip_port split_host_port position
    last_position first_host match_host first_of_keys wildcards split_from join lookup put
    insert_path match_path match_path_from text_eq
fallback_found = refl

match_key-find_example :
    match_key lower (codes "a.b/food") (build lower sites)
    ≡ found (find lower (candidates (codes "a.b" ∷ fallback_hosts)) (codes "/food") sites)
unfolding split_host_path split_key strip_port split_host_port position last_position
match_key-find_example = match_key-find lower (codes "a.b/food") sites
