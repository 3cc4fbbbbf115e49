-- ===== src/VHost/Paths.antt =====
-- Insertion and longest match below a host of caddyhttp/httpserver/vhosttrie.go.
use iotacaddy.Prelude.{
  Option, none, some, [], ◌∷◌, ◌≡◌, refl, sym, ap, inl, inr, ◌∙◌, Bool-cases, if◌then◌else◌, arith,
  Text, text_eq, text_eq_iff, ◌==◌, ==_iff,
}
use iotacaddy.VHost.Defs.{
  Node, node, Edges, leaf, edge, site_of, path_of, edges_of, new_trie, lookup, put, or_new,
  insert_path, if_site, match_path_from, match_path,
}

module _ {S : Type 0} where
  pub lookup-put :
      (k j : Text) (n : Node S) (es : Edges S)
      → lookup j (put k n es) ≡ (if text_eq k j then some n else lookup j es)
  unfolding lookup put
  lookup-put k j n leaf = refl
  lookup-put k j n (edge i m es) =
      ground (arith, text_eq_iff k j, text_eq_iff i k, text_eq_iff i j, lookup-put k j n es)

  -- The node at a path, with or without a site.
  abbrev pub node_at : Text → Node S → Option (Node S)
  node_at [] t = some t
  node_at (c ∷ cs) t = elim (lookup (c ∷ []) (edges_of t)) [ none ↦ none | some n ↦ node_at cs n ]

  -- The site that was put at exactly this path, with the path that it was put under.
  abbrev pub site_in : Option (Node S) → Option (S × Text)
  site_in none = none
  site_in (some n) = elim (site_of n) [ none ↦ none | some s ↦ some (s, path_of n) ]

  abbrev pub entry : Text → Node S → Option (S × Text)
  entry p t = site_in (node_at p t)

  entry_new : (p : Text) → entry p (new_trie {S = S}) ≡ none
  unfolding lookup
  entry_new [] = refl
  entry_new (c ∷ p) = refl

  abbrev via : Text → Option (Node S) → Option (S × Text)
  via q o = site_in (elim o [ none ↦ none | some n ↦ node_at q n ])

  via-or_new : (q : Text) (o : Option (Node S)) → entry q (or_new o) ≡ via q o
  via-or_new q none = entry_new q
  via-or_new q (some n) = refl

  -- Insertion sets the entry of its path, and no other.
  pub entry-insert_path :
      (p q : Text) (original : Text) (s : S) (t : Node S)
      → entry q (insert_path p original s t)
        ≡ (if text_eq p q then some (s, original) else entry q t)
  unfolding insert_path text_eq
  entry-insert_path [] [] original s (node s' o es) = refl
  entry-insert_path [] (d ∷ q) original s (node s' o es) = refl
  entry-insert_path (c ∷ p) [] original s (node s' o es) = refl
  entry-insert_path (c ∷ p) (d ∷ q) original s (node s' o es) = elim (Bool-cases (c == d)) [
    | inl e ↦
        let cd = (==_iff c d).0 e in
        let found : lookup (d ∷ []) (put (c ∷ []) below es) ≡ some below =
          lookup-put (c ∷ []) (d ∷ []) below es ∙ rw e refl in
        let ih = entry-insert_path p q original s (or_new (lookup (c ∷ []) es)) in
        let o' = via-or_new q (lookup (c ∷ []) es) in
        ap (via q) found ∙ ih ∙ rw e (rw o' (rw cd refl))
    | inr e ↦
        let kept : lookup (d ∷ []) (put (c ∷ []) below es) ≡ lookup (d ∷ []) es =
          lookup-put (c ∷ []) (d ∷ []) below es ∙ rw e refl in
        ap (via q) kept ∙ rw e refl
  ]
    where
      below : Node S
      below = insert_path p original s (or_new (lookup (c ∷ []) es))

  -- The longest prefix of a text under which there is an entry, looked for from the shortest on,
  -- the best so far at hand.
  abbrev pub or_else : Option (S × Text) → Option (S × Text) → Option (S × Text)
  or_else none other = other
  or_else (some e) other = some e

  abbrev pub longest_from :
      Option (S × Text) → (Text → Option (S × Text)) → Text → Option (S × Text)
  longest_from best f [] = best
  longest_from best f (c ∷ cs) = longest_from (or_else (f (c ∷ [])) best) (λ q. f (c ∷ q)) cs

  longest_none :
      (best : Option (S × Text)) (f : Text → Option (S × Text)) (q : Text)
      → ((p : Text) → f p ≡ none)
      → longest_from best f q ≡ best
  longest_none best f [] h = refl
  longest_none best f (c ∷ q) h =
      rw (h (c ∷ [])) (longest_none best (λ r. f (c ∷ r)) q (λ r. h (c ∷ r)))

  site_in-if_site :
      (n : Node S) (o : Option (Node S))
      → site_in (if_site n o) ≡ or_else (site_in (some n)) (site_in o)
  site_in-if_site (node none p es) o = refl
  site_in-if_site (node (some s) p es) o = refl

  match_path_from-longest :
      (q : Text) (best : Option (Node S)) (t : Node S)
      → site_in (match_path_from best q t) ≡ longest_from (site_in best) (λ p. entry p t) q
  unfolding match_path_from
  match_path_from-longest [] best t = refl
  match_path_from-longest (c ∷ q) best t =
      on_edge (match_path_from-longest q) (lookup (c ∷ []) (edges_of t))
    where
      on_edge :
          ((b : Option (Node S)) (n : Node S)
            → site_in (match_path_from b q n) ≡ longest_from (site_in b) (λ p. entry p n) q)
          → (o : Option (Node S))
          → site_in (elim o [ none ↦ best | some n ↦ match_path_from (if_site n best) q n ])
            ≡ longest_from (or_else (via [] o) (site_in best)) (λ p. via p o) q
      on_edge ih none = sym (longest_none (site_in best) (λ p. none) q (λ p. refl))
      on_edge ih (some n) =
          ih (if_site n best) n
          ∙ ap (λ b. longest_from b (λ p. entry p n) q) (site_in-if_site n best)

  -- `matchPath` finds the longest non-empty prefix of the path that something was put under, with
  -- that site and path.
  pub match_path-longest :
      (q : Text) (t : Node S) → site_in (match_path q t) ≡ longest_from none (λ p. entry p t) q
  unfolding match_path
  match_path-longest q t = match_path_from-longest q none t
