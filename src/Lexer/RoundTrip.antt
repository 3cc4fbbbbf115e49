-- ===== src/Lexer/RoundTrip.antt =====
-- A printer for the lexer's input (caddyfile/lexer.go), and what `allTokens` reads back.
use iotacaddy.Prelude.{
  ℕ, zero, suc, ◌+◌, ◌<◌, true, false, some, List, [], ◌∷◌, ◌++◌, append-nil, append_assoc, ◌≡◌,
  refl, ap, ◌∙◌, ◌==◌, if◌then◌else◌, Bool-cases, inl, inr, arith, Text, length, length-append, All,
}
use iotacaddy.Lexer.Defs.{
  Token, ReadEnd, eof, Lexer, no_token, byte_order_mark, Scan, loop, is_space, round, loaded, ended,
  scan, next, lexed, prepend, read_all, all_tokens, scan_end,
}
use iotacaddy.Lexer.Words.{
  at, token_at, plain, IsWordRune, IsBreak, line_after, scan-loop, scan-make, next-word, next-space,
}
use iotacaddy.Lexer.Comments.{next-comment}

-- What stands in quotes: a quote is escaped by a backslash.
abbrev escape_rune : ℕ → Text
escape_rune c = if c == b'"' then b'\\' ∷ b'"' ∷ [] else c ∷ []

abbrev pub escape : Text → Text
escape [] = []
escape (c ∷ cs) = escape_rune c ++ escape cs

abbrev quoting : Text → Token → ℕ → Scan
quoting v t n = record {
  val = v;
  comment = false;
  quoted = true;
  escaped = false;
  token = t;
  line = n;
}

abbrev escaping : Text → Token → ℕ → Scan
escaping v t n = record {
  val = v;
  comment = false;
  quoted = true;
  escaped = true;
  token = t;
  line = n;
}

abbrev pub lines_after : Text → ℕ → ℕ
lines_after [] n = n
lines_after (c ∷ cs) n = lines_after cs (line_after c n)

module _ (e : ReadEnd) (t : Token) where
  scan-plain_rune :
      (c : ℕ) (rest v : Text) (n : ℕ)
      → (c == b'\\') ≡ false
      → (c == b'"') ≡ false
      → scan e (c ∷ rest) (quoting v t n) ≡ scan e rest (quoting (v ++ c ∷ []) t (line_after c n))
  scan-plain_rune c rest v n h q = scan-loop e c rest _ step
    where
      step : round c (quoting v t n) ≡ loop (quoting (v ++ c ∷ []) t (line_after c n))
      step = unfold round in ground arith

  scan-escaped_quote :
      (rest v : Text) (n : ℕ)
      → scan e (b'\\' ∷ b'"' ∷ rest) (quoting v t n) ≡ scan e rest (quoting (v ++ b'"' ∷ []) t n)
  scan-escaped_quote rest v n =
      scan-loop e b'\\' (b'"' ∷ rest) (quoting v t n) {s' = escaping v t n} (unfold round in refl)
      ∙ scan-loop e b'"' rest (escaping v t n) (unfold round in refl)

  scan-escape_rune :
      (c : ℕ) (rest v : Text) (n : ℕ)
      → (c == b'\\') ≡ false
      → scan e (escape_rune c ++ rest) (quoting v t n)
        ≡ scan e rest (quoting (v ++ c ∷ []) t (line_after c n))
  scan-escape_rune c rest v n h = elim (Bool-cases (c == b'"')) [
    | inl q ↦ ground (arith, scan-escaped_quote rest v n)
    | inr q ↦ rw q (scan-plain_rune c rest v n h q)
  ]

  scan-escape :
      (cs rest v : Text) (n : ℕ)
      → All (λ c. (c == b'\\') ≡ false) cs
      → scan e (escape cs ++ rest) (quoting v t n)
        ≡ scan e rest (quoting (v ++ cs) t (lines_after cs n))
  scan-escape [] rest v n h = rw append-nil
  scan-escape (c ∷ cs) rest v n (p, h) = rw append_assoc (
      scan-escape_rune c (escape cs ++ rest) v n p
      ∙ scan-escape cs rest (v ++ c ∷ []) (line_after c n) h
      ∙ rw append_assoc)

-- A quoted text is one call of `next`, whatever spaces, newlines and marks it holds.
next-quoted :
    (t : Token) (e : ReadEnd) (cs rest : Text) (n : ℕ)
    → All (λ c. (c == b'\\') ≡ false) cs
    → next (at t e (b'"' ∷ (escape cs ++ (b'"' ∷ rest))) n)
      ≡ loaded (at (token_at n cs) e rest (lines_after cs n))
unfolding next
next-quoted t e cs rest n h =
    scan-loop e b'"' (escape cs ++ (b'"' ∷ rest)) (plain [] t n) {s' = quoting [] (token_at n []) n}
      (unfold round in refl)
    ∙ scan-escape e (token_at n []) cs (b'"' ∷ rest) [] n h
    ∙ scan-make e b'"' rest (quoting cs (token_at n []) (lines_after cs n))
        {s' = plain cs (token_at n []) (lines_after cs n)} (unfold round in refl)

-- What a file is made of. A word comes with its first rune and the space that ends it.
pub data Item : Type 0 where
  blank : ℕ → Item
  comment : Text → Item
  word : ℕ → Text → ℕ → Item
  quoted : Text → Item

abbrev pub IsItem : Item → Type 0
IsItem (blank c) = is_space c ≡ true
IsItem (comment body) = All (λ c. (c == b'\n') ≡ false) body
IsItem (word c w b) = IsWordRune c × ((c == b'"') ≡ false) × All IsWordRune w × IsBreak b
IsItem (quoted cs) = All (λ c. (c == b'\\') ≡ false) cs

abbrev pub render : List Item → Text
render [] = []
render (blank c ∷ is) = c ∷ render is
render (comment body ∷ is) = b'#' ∷ (body ++ (b'\n' ∷ render is))
render (word c w b ∷ is) = c ∷ (w ++ (b ∷ render is))
render (quoted cs ∷ is) = b'"' ∷ (escape cs ++ (b'"' ∷ render is))

-- The tokens of the items, the first of which starts on line `n`.
abbrev pub tokens_from : ℕ → List Item → List Token
tokens_from n [] = []
tokens_from n (blank c ∷ is) = tokens_from (line_after c n) is
tokens_from n (comment body ∷ is) = tokens_from (n + 1) is
tokens_from n (word c w b ∷ is) = token_at n (c ∷ w) ∷ tokens_from (line_after b n) is
tokens_from n (quoted cs ∷ is) = token_at n cs ∷ tokens_from (lines_after cs n) is

read_all-next : (f : ℕ) (l l' : Lexer) → next l ≡ next l' → read_all f l ≡ read_all f l'
unfolding read_all
read_all-next zero l l' h = refl
read_all-next (suc f) l l' h = rw (h, read_all)

read_all-loaded :
    (f : ℕ) (l : Lexer) {l' : Lexer}
    → next l ≡ loaded l'
    → read_all (suc f) l ≡ prepend l'.token (read_all f l')
unfolding read_all
read_all-loaded f l h = rw (h, read_all)

next_nil : (t : Token) (n : ℕ) → next (at t eof [] n) ≡ ended (at t eof [] n)
unfolding next scan scan_end
next_nil t n = refl

read_all_nil : (f : ℕ) (t : Token) (n : ℕ) → read_all (suc f) (at t eof [] n) ≡ lexed []
unfolding read_all
read_all_nil f t n = rw (next_nil t n, read_all)

read_all-render :
    (is : List Item) (f : ℕ) (t : Token) (n : ℕ)
    → All IsItem is
    → length (render is) < f
    → read_all f (at t eof (render is) n) ≡ lexed (tokens_from n is)
read_all-render is zero t n h lt = absurd (omega arith)
read_all-render [] (suc f) t n h lt = read_all_nil f t n
read_all-render (blank c ∷ is) (suc f) t n (p, h) lt =
    read_all-next (suc f) _ _ (next-space t eof c (render is) n p)
    ∙ read_all-render is (suc f) t (line_after c n) h (omega arith)
read_all-render (comment body ∷ is) (suc f) t n (p, h) lt =
    read_all-next (suc f) _ _ (next-comment t eof body (render is) n p)
    ∙ read_all-render is (suc f) t (n + 1) h (omega (arith, length-append body (b'\n' ∷ render is)))
read_all-render (word c w b ∷ is) (suc f) t n ((p, q, r, k), h) lt =
    read_all-loaded f _ (next-word t eof c w b (render is) n p q r k)
    ∙ ap (prepend (token_at n (c ∷ w))) (
        read_all-render is f (token_at n (c ∷ w)) (line_after b n) h
          (omega (arith, length-append w (b ∷ render is))))
read_all-render (quoted cs ∷ is) (suc f) t n (p, h) lt =
    read_all-loaded f _ (next-quoted t eof cs (render is) n p)
    ∙ ap (prepend (token_at n cs)) (
        read_all-render is f (token_at n cs) (lines_after cs n) h
          (omega (arith, length-append (escape cs) (b'"' ∷ render is))))

-- A byte order mark at the head of the input changes nothing.
pub all_tokens_mark :
    (c : ℕ) (cs : Text) (e : ReadEnd)
    → (c == byte_order_mark) ≡ false
    → all_tokens (record { runes = byte_order_mark ∷ c ∷ cs; ending = e })
      ≡ all_tokens (record { runes = c ∷ cs; ending = e })
unfolding all_tokens
all_tokens_mark c cs e h = rw h

-- The text is not empty, and its first rune is no byte order mark.
abbrev pub Starts : Text → Type 0
Starts [] = ⊥
Starts (c ∷ _) = (c == byte_order_mark) ≡ false

all_tokens-lexed :
    (runes : Text) {r : List Token}
    → Starts runes
    → read_all (suc (length runes)) (at no_token eof runes 1) ≡ lexed r
    → all_tokens (record { runes = runes; ending = eof }) ≡ some (lexed r)
unfolding all_tokens
all_tokens-lexed [] h e = absurd h
all_tokens-lexed (c ∷ cs) h e = rw h (ap some e)

-- Reading back what was printed gives the words and the quoted texts in order, each with the
-- number of the line that it starts on; blanks and comments are skipped. A word holds no space
-- and no `#`, and does not start with a quote; a quoted text may hold anything but a backslash.
-- The input is not empty, and does not start with a byte order mark.
pub all_tokens-render :
    (is : List Item)
    → All IsItem is
    → Starts (render is)
    → all_tokens (record { runes = render is; ending = eof }) ≡ some (lexed (tokens_from 1 is))
all_tokens-render is h st =
    all_tokens-lexed (render is) st
      (read_all-render is (suc (length (render is))) no_token 1 h (omega arith))
