-- ===== src/Lexer/Words.antt =====
-- Runs of `scan` over the pieces of a line (caddyfile/lexer.go): blanks, words, quoted texts.
use iotacaddy.Prelude.{
  ℕ, ◌+◌, true, false, [], ◌∷◌, ◌++◌, append-nil, append_assoc, ◌≡◌, ◌∙◌, ◌==◌, if◌then◌else◌,
  arith, Text, All,
}
use iotacaddy.Lexer.Defs.{
  Token, ReadEnd, Lexer, Scan, loop, make, is_space, round, loaded, scan, next, make_token,
}

-- The lexer before the runes `cs`, on line `n`.
abbrev pub at : Token → ReadEnd → Text → ℕ → Lexer
at t e cs n = record { reader = record { runes = cs; ending = e }; token = t; line = n }

-- The token that starts on line `n`.
abbrev pub token_at : ℕ → Text → Token
token_at n w = record { file = []; line = n; text = w }

-- The state of the loop outside quotes and comments.
abbrev pub plain : Text → Token → ℕ → Scan
plain v t n = record {
  val = v;
  comment = false;
  quoted = false;
  escaped = false;
  token = t;
  line = n;
}

abbrev pub IsWordRune : ℕ → Type 0
IsWordRune c = (is_space c ≡ false) × ((c == b'#') ≡ false)

-- A rune that ends a word: any space but the carriage return, which is passed over.
abbrev pub IsBreak : ℕ → Type 0
IsBreak c = (is_space c ≡ true) × ((c == b'\r') ≡ false)

module _ (e : ReadEnd) (c : ℕ) (cs : Text) (s : Scan) {s' : Scan} where
  pub scan-loop : round c s ≡ loop s' → scan e (c ∷ cs) s ≡ scan e cs s'
  unfolding scan
  scan-loop h = rw (h, scan)

  pub scan-make : round c s ≡ make s' → scan e (c ∷ cs) s ≡ loaded (make_token e cs s')
  unfolding scan
  scan-make h = rw (h, scan)

round-word :
    (c v₀ : ℕ) (v : Text) (t : Token) (n : ℕ)
    → IsWordRune c
    → round c (plain (v₀ ∷ v) t n) ≡ loop (plain (v₀ ∷ (v ++ c ∷ [])) t n)
unfolding round
round-word c v₀ v t n h = ground arith

scan-word :
    (e : ReadEnd) (w rest : Text) (v₀ : ℕ) (v : Text) (t : Token) (n : ℕ)
    → All IsWordRune w
    → scan e (w ++ rest) (plain (v₀ ∷ v) t n) ≡ scan e rest (plain (v₀ ∷ (v ++ w)) t n)
scan-word e [] rest v₀ v t n h = rw append-nil
scan-word e (c ∷ w) rest v₀ v t n (p, h) =
    scan-loop e c (w ++ rest) _ (round-word c v₀ v t n p)
    ∙ scan-word e w rest v₀ (v ++ c ∷ []) t n h
    ∙ rw append_assoc

round-first :
    (c : ℕ) (t : Token) (n : ℕ)
    → IsWordRune c
    → (c == b'"') ≡ false
    → round c (plain [] t n) ≡ loop (plain (c ∷ []) (token_at n []) n)
unfolding round
round-first c t n h q = ground arith

pub scan-first :
    (e : ReadEnd) (c : ℕ) (w rest : Text) (t : Token) (n : ℕ)
    → IsWordRune c
    → (c == b'"') ≡ false
    → All IsWordRune w
    → scan e (c ∷ (w ++ rest)) (plain [] t n) ≡ scan e rest (plain (c ∷ w) (token_at n []) n)
scan-first e c w rest t n p q h =
    scan-loop e c (w ++ rest) _ (round-first c t n p q)
    ∙ scan-word e w rest c [] (token_at n []) n h

-- The line number behind a rune.
abbrev pub line_after : ℕ → ℕ → ℕ
line_after c n = if c == b'\n' then n + 1 else n

round-break :
    (c v₀ : ℕ) (v : Text) (t : Token) (n : ℕ)
    → IsBreak c
    → round c (plain (v₀ ∷ v) t n) ≡ make (plain (v₀ ∷ v) t (line_after c n))
unfolding round
round-break c v₀ v t n h = ground arith

scan-break :
    (e : ReadEnd) (c : ℕ) (rest : Text) (v₀ : ℕ) (v : Text) (t : Token) (n : ℕ)
    → IsBreak c
    → scan e (c ∷ rest) (plain (v₀ ∷ v) t n)
      ≡ loaded (make_token e rest (plain (v₀ ∷ v) t (line_after c n)))
scan-break e c rest v₀ v t n h = scan-make e c rest _ (round-break c v₀ v t n h)

-- A word and the space behind it are one call of `next`.
pub next-word :
    (t : Token) (e : ReadEnd) (c : ℕ) (w : Text) (b : ℕ) (rest : Text) (n : ℕ)
    → IsWordRune c
    → (c == b'"') ≡ false
    → All IsWordRune w
    → IsBreak b
    → next (at t e (c ∷ (w ++ (b ∷ rest))) n)
      ≡ loaded (at (token_at n (c ∷ w)) e rest (line_after b n))
unfolding next
next-word t e c w b rest n p q h k =
    scan-first e c w (b ∷ rest) t n p q h ∙ scan-break e b rest c w (token_at n []) n k

round-space :
    (c : ℕ) (t : Token) (n : ℕ)
    → is_space c ≡ true
    → round c (plain [] t n) ≡ loop (plain [] t (line_after c n))
unfolding round
round-space c t n h = ground arith

-- A space before a token is skipped.
pub next-space :
    (t : Token) (e : ReadEnd) (c : ℕ) (rest : Text) (n : ℕ)
    → is_space c ≡ true
    → next (at t e (c ∷ rest) n) ≡ next (at t e rest (line_after c n))
unfolding next
next-space t e c rest n h = scan-loop e c rest _ (round-space c t n h)
