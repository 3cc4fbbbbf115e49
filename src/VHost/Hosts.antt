-- ===== src/VHost/Hosts.antt =====
-- `Insert` and `Match` together, of caddyhttp/httpserver/vhosttrie.go.
use iotacaddy.Prelude.{
  ℕ, ◌+◌, Option, none, some, List, [], ◌∷◌, ◌≡◌, refl, sym, subst, inl, inr, ◌∙◌, Option-cases,
  Text, text_eq_iff, map, drop,
}
use iotacaddy.VHost.Defs.{
  Node, node, Edges, edges_of, lookup, put, or_new, insert_path, match_path, match_host,
  first_of_keys, first_host, fallback_hosts, split_key, strip_port, split_host_path, result,
  in_branch, insert, match_key,
}
use iotacaddy.Net.{position}
use iotacaddy.VHost.Paths.{
  lookup-put, or_else, entry, entry-insert_path, site_in, longest_from, match_path-longest,
}

module _ {S : Type 0} where
  -- A host that has an edge of its own is found before wildcards and fallbacks.
  first_host_own :
      (host : Text) (hs : List Text) (es : Edges S) (n : Node S)
      → lookup host es ≡ some n
      → first_host (host ∷ hs) es ≡ some n
  unfolding first_host match_host first_of_keys
  first_host_own host hs es n e = rw (e, first_of_keys, match_host, first_host) refl

  longest_full :
      (best : Option (S × Text)) (f : Text → Option (S × Text)) (c : ℕ) (q : Text) (e : S × Text)
      → f (c ∷ q) ≡ some e
      → longest_from best f (c ∷ q) ≡ some e
  longest_full best f c [] e h = rw h refl
  longest_full best f c (d ∷ q) e h =
      longest_full (or_else (f (c ∷ [])) best) (λ r. f (c ∷ r)) d q e h

  result_of_site :
      (o : Option (Node S)) (s : S) (p : Text) → site_in o ≡ some (s, p) → result o ≡ (some s, p)
  result_of_site none s p h = absurd (cc)
  result_of_site (some (node none p' es)) s p h = absurd (cc)
  result_of_site (some (node (some s') p' es)) s p h = cc

  abbrev pub below : Text → Text → S → Node S → Node S
  below host path s t = insert_path path path s (or_new (lookup host (edges_of t)))

  found_below :
      (c : ℕ) (path : Text) (host : Text) (s : S) (t : Node S)
      → result (match_path (c ∷ path) (below host (c ∷ path) s t)) ≡ (some s, c ∷ path)
  found_below c path host s t = result_of_site _ s (c ∷ path) (
      match_path-longest (c ∷ path) (below host (c ∷ path) s t)
      ∙ longest_full none (λ p. entry p (below host (c ∷ path) s t)) c path (s, c ∷ path)
          (entry-insert_path (c ∷ path) (c ∷ path) (c ∷ path) s _
            ∙ rw ((text_eq_iff (c ∷ path) (c ∷ path)).1 refl) refl))

  match_below :
      (host path : Text) (s : S) (t : Node S) (es : Edges S)
      → (rest : Text) × (path ≡ b'/' ∷ rest)
      → in_branch path (first_host (host ∷ fallback_hosts) (put host (below host path s t) es))
        ≡ (some s, path)
  match_below host path s t es (rest, e) =
      let own =
        first_host_own host fallback_hosts (put host (below host path s t) es) (below host path s t)
          (lookup-put host host (below host path s t) es
            ∙ rw ((text_eq_iff host host).1 refl) refl) in
      rw own (
        subst (λ p. result (match_path p (below host p s t)) ≡ (some s, p)) (sym e)
          (found_below b'/' rest host s t))

split_key_slash : (key : Text) → (rest : Text) × ((split_key key).1 ≡ b'/' ∷ rest)
unfolding split_key
split_key_slash key = elim (Option-cases (position b'/' key)) [
  | inl e ↦ ([], rw (e, split_key) refl)
  | inr (i, e) ↦ (drop (i + 1) key, rw (e, split_key) refl)
]

-- A site is found under the key that it was put under, with the whole path of that key, whatever
-- the trie held before.
pub match_key-insert :
    {S : Type 0} (lower : ℕ → ℕ) (key : Text) (s : S) (t : Node S)
    → match_key lower key (insert lower key s t) ≡ (some s, (split_host_path lower key).1)
unfolding match_key insert split_host_path
match_key-insert lower key s t =
    match_below (strip_port (map lower (split_key key).0)) (split_key key).1 s t (edges_of t)
      (split_key_slash key)
