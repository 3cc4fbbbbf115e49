-- ===== src/VHost/Sites.antt =====
-- The trie of caddyhttp/httpserver/vhosttrie.go as a table of sites: what a key finds in a trie
-- into which keys were inserted one after the other.
use iotacaddy.Prelude.{
  ℕ, Bool, true, false, ◌&&◌, ◌||◌, Option, none, some, List, [], ◌∷◌, ◌++◌, ◌≡◌, refl, sym, ap,
  subst, ◌∙◌, Option-cases, Bool-cases, inl, inr, if◌then◌else◌, Text, text_eq, text_eq_iff,
}
use iotacaddy.VHost.Defs.{
  Node, node, Edges, edges_of, new_trie, lookup, or_new, insert_path, if_site, match_path_from,
  match_path, split, wildcards, first_of_keys, match_host, first_host, fallback_hosts,
  split_host_path, insert, result, in_branch, match_key,
}
use iotacaddy.VHost.Paths.{
  lookup-put, or_else, entry, entry-insert_path, site_in, longest_from, match_path-longest,
}

-- The hosts to look for: each one, then with its labels replaced by wildcards from the left.
abbrev pub candidates : List Text → List Text
candidates [] = []
candidates (h ∷ hs) = (h ∷ wildcards [] (split b'.' h)) ++ candidates hs

-- A site and its path as `Match` returns them.
abbrev pub found : {S : Type 0} → Option (S × Text) → Option S × Text
found none = (none, [])
found (some (s, p)) = (some s, p)

module _ {S : Type 0} (lower : ℕ → ℕ) where
  -- The trie of the keys, the last one first.
  unfoldable pub build : List (Text × S) → Node S
  build [] = new_trie
  build ((key, s) ∷ sites) = insert lower key s (build sites)

  -- Whether a key has the host.
  abbrev pub has_host : Text → List (Text × S) → Bool
  has_host h [] = false
  has_host h ((key, s) ∷ sites) = text_eq (split_host_path lower key).0 h || has_host h sites

  -- The site that was inserted last under a host and a path, with that path.
  abbrev pub site_at : Text → Text → List (Text × S) → Option (S × Text)
  site_at h p [] = none
  site_at h p ((key, s) ∷ sites) =
      let (host, path) = split_host_path lower key in
      if text_eq host h && text_eq path p then some (s, path) else site_at h p sites

  -- The first of the hosts that a key has, and below it the longest prefix of the path that has a
  -- site.
  abbrev pub find : List Text → Text → List (Text × S) → Option (S × Text)
  find [] path sites = none
  find (h ∷ hs) path sites =
      if has_host h sites
      then longest_from none (λ p. site_at h p sites) path
      else find hs path sites

  abbrev is_some : Option (Node S) → Bool
  is_some none = false
  is_some (some n) = true

  -- A branch of the trie holds what a table has for its host.
  record Holds (there : Bool) (sites : Text → Option (S × Text)) (o : Option (Node S))
      : Type 0 where
    is_there : is_some o ≡ there
    sites_are : (p : Text) → entry p (or_new o) ≡ sites p

  entry_empty : (p : Text) → entry p (new_trie {S = S}) ≡ none
  unfolding lookup
  entry_empty [] = refl
  entry_empty (c ∷ p) = refl

  put-Holds :
      (host path h : Text) (s : S) (es : Edges S) (b : Bool) (f : Text → Option (S × Text))
      → Holds b f (lookup h es)
      → Holds
          (text_eq host h || b)
          (λ p. if text_eq host h && text_eq path p then some (s, path) else f p)
          (if text_eq host h
            then some (insert_path path path s (or_new (lookup host es)))
            else lookup h es)
  put-Holds host path h s es b f l = elim (Bool-cases (text_eq host h)) [
    | inl t ↦
        let e : host ≡ h = (text_eq_iff host h).0 t in
        rw t (record {
          is_there = refl;
          sites_are = λ p.
              entry-insert_path path p path s (or_new (lookup host es))
              ∙ ap (λ r. if text_eq path p then some (s, path) else r)
                  (ap (λ k. entry p (or_new (lookup k es))) e ∙ l.sites_are p);
        })
    | inr t ↦ rw t (record { is_there = l.is_there; sites_are = l.sites_are })
  ]

  build-Holds :
      (h : Text) (sites : List (Text × S))
      → Holds (has_host h sites) (λ p. site_at h p sites) (lookup h (edges_of (build sites)))
  unfolding build insert lookup
  build-Holds h [] = record { is_there = refl; sites_are = entry_empty }
  build-Holds h ((key, s) ∷ sites) =
      let (host, path) = split_host_path lower key in
      let old = edges_of (build sites) in
      rw (lookup-put host h (insert_path path path s (or_new (lookup host old))) old) (
        put-Holds host path h s old (has_host h sites) (λ p. site_at h p sites)
          (build-Holds h sites))

  longest_from_cong :
      (best : Option (S × Text)) (f g : Text → Option (S × Text)) (q : Text)
      → ((p : Text) → f p ≡ g p)
      → longest_from best f q ≡ longest_from best g q
  longest_from_cong best f g [] h = refl
  longest_from_cong best f g (c ∷ q) h = rw (h (c ∷ [])) (
      longest_from_cong (or_else (g (c ∷ [])) best) (λ p. f (c ∷ p)) (λ p. g (c ∷ p)) q
        (λ p. h (c ∷ p)))

  -- What the last line of `Match` gives of a node that has a site, or of none.
  IsSited : Option (Node S) → Type 0
  IsSited o = result o ≡ found (site_in o)

  match_path_from-IsSited :
      (best : Option (Node S)) (q : Text) (t : Node S)
      → IsSited best
      → IsSited (match_path_from best q t)
  unfolding match_path_from IsSited
  match_path_from-IsSited best [] t h = h
  match_path_from-IsSited best (c ∷ q) t h =
      on_edge (λ b n h'. match_path_from-IsSited b q n h') (lookup (c ∷ []) (edges_of t))
    where
      if_site-IsSited : (n : Node S) → IsSited (if_site n best)
      if_site-IsSited (node none p es) = h
      if_site-IsSited (node (some s) p es) = refl

      on_edge :
          ((b : Option (Node S)) (n : Node S) → IsSited b → IsSited (match_path_from b q n))
          → (o : Option (Node S))
          → IsSited (elim o [ none ↦ best | some n ↦ match_path_from (if_site n best) q n ])
      on_edge ih none = h
      on_edge ih (some n) = ih (if_site n best) n (if_site-IsSited n)

  in_branch-Holds :
      (path : Text) (b : Bool) (f : Text → Option (S × Text)) (n : Node S)
      → Holds b f (some n)
      → in_branch path (some n) ≡ found (longest_from none f path)
  unfolding match_path IsSited
  in_branch-Holds path b f n l =
      match_path_from-IsSited none path n refl
      ∙ ap found
          (match_path-longest path n ∙ longest_from_cong none (λ p. entry p n) f path l.sites_are)

  -- The keys of a map, looked up one after the other.
  first_of_keys-append :
      (ks ls : List Text) (es : Edges S)
      → first_of_keys (ks ++ ls) es
        ≡ elim (first_of_keys ks es) [ some n ↦ some n | none ↦ first_of_keys ls es ]
  unfolding first_of_keys
  first_of_keys-append [] ls es = refl
  first_of_keys-append (k ∷ ks) ls es = elim (Option-cases (lookup k es)) [
    | inl e ↦ rw (e, first_of_keys) (first_of_keys-append ks ls es)
    | inr (n, e) ↦ rw (e, first_of_keys) refl
  ]

  first_host-candidates :
      (hs : List Text) (es : Edges S) → first_host hs es ≡ first_of_keys (candidates hs) es
  unfolding first_host match_host first_of_keys
  first_host-candidates [] es = refl
  first_host-candidates (h ∷ hs) es =
      ap (λ r. elim (match_host h es) [ some n ↦ some n | none ↦ r ]) (first_host-candidates hs es)
      ∙ sym (first_of_keys-append (h ∷ wildcards [] (split b'.' h)) (candidates hs) es)

  first_of_keys-find :
      (ks : List Text) (path : Text) (sites : List (Text × S))
      → in_branch path (first_of_keys ks (edges_of (build sites))) ≡ found (find ks path sites)
  unfolding first_of_keys
  first_of_keys-find [] path sites = refl
  first_of_keys-find (k ∷ ks) path sites =
      let l = build-Holds k sites in
      elim (Option-cases (lookup k (edges_of (build sites)))) [
        | inl e ↦
            let b : has_host k sites ≡ false = sym l.is_there ∙ ap is_some e in
            rw (e, first_of_keys) (rw b (first_of_keys-find ks path sites))
        | inr (n, e) ↦
            let b : has_host k sites ≡ true = sym l.is_there ∙ ap is_some e in
            rw (e, first_of_keys)
              (rw b (
                in_branch-Holds path (has_host k sites) (λ p. site_at k p sites) n
                  (subst (Holds (has_host k sites) (λ p. site_at k p sites)) e l)))
      ]

-- A trie into which keys were inserted answers as the table of the keys does: a key finds, of its
-- own host, then that host with its labels replaced by wildcards from the left, then the fallback
-- hosts likewise, the first that some inserted key has; below it, it finds the longest non-empty
-- prefix of its path that was inserted under that host, with the site that was inserted last there.
pub match_key-find :
    {S : Type 0} (lower : ℕ → ℕ) (key : Text) (sites : List (Text × S))
    → let (host, path) = split_host_path lower key in
      match_key lower key (build lower sites)
      ≡ found (find lower (candidates (host ∷ fallback_hosts)) path sites)
unfolding match_key
match_key-find lower key sites =
    let (host, path) = split_host_path lower key in
    ap (in_branch path)
      (first_host-candidates lower (host ∷ fallback_hosts) (edges_of (build lower sites)))
    ∙ first_of_keys-find lower (candidates (host ∷ fallback_hosts)) path sites
