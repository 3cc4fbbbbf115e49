-- ===== src/Lexer/Comments.antt =====
-- What `next` skips (caddyfile/lexer.go): comments.
use iotacaddy.Prelude.{ℕ, ◌+◌, true, false, [], ◌∷◌, ◌++◌, ◌≡◌, refl, ◌∙◌, ◌==◌, arith, Text, All}
use iotacaddy.Lexer.Defs.{Token, ReadEnd, Scan, loop, make, is_space, round, loaded, scan, next}
use iotacaddy.Lexer.Words.{at, token_at, plain, IsWordRune, scan-first, scan-loop, scan-make}

abbrev in_comment : Text → Token → ℕ → Scan
in_comment v t n = record {
  val = v;
  comment = true;
  quoted = false;
  escaped = false;
  token = t;
  line = n;
}

round-in_comment :
    (ch : ℕ) (t : Token) (n : ℕ)
    → (ch == b'\n') ≡ false
    → round ch (in_comment [] t n) ≡ loop (in_comment [] t n)
unfolding round
round-in_comment ch t n h = ground arith

scan-in_comment :
    (e : ReadEnd) (body rest : Text) (t : Token) (n : ℕ)
    → All (λ c. (c == b'\n') ≡ false) body
    → scan e (body ++ rest) (in_comment [] t n) ≡ scan e rest (in_comment [] t n)
scan-in_comment e [] rest t n h = refl
scan-in_comment e (ch ∷ body) rest t n (p, h) =
    scan-loop e ch (body ++ rest) _ (round-in_comment ch t n p) ∙ scan-in_comment e body rest t n h

-- A comment that starts where no token is being read is skipped up to the newline, whatever it
-- holds.
pub next-comment :
    (t : Token) (e : ReadEnd) (body rest : Text) (n : ℕ)
    → All (λ c. (c == b'\n') ≡ false) body
    → next (at t e (b'#' ∷ (body ++ (b'\n' ∷ rest))) n) ≡ next (at t e rest (n + 1))
unfolding next scan round
next-comment t e body rest n h = scan-in_comment e body (b'\n' ∷ rest) t n h

round-mark :
    (v₀ : ℕ) (v : Text) (t : Token) (n : ℕ)
    → round b'#' (plain (v₀ ∷ v) t n) ≡ loop (in_comment (v₀ ∷ v) t n)
unfolding round
round-mark v₀ v t n = refl

round-attached :
    (c v₀ : ℕ) (v : Text) (t : Token) (n : ℕ)
    → is_space c ≡ false
    → round c (in_comment (v₀ ∷ v) t n) ≡ loop (in_comment (v₀ ∷ v) t n)
unfolding round
round-attached c v₀ v t n h = ground arith

scan-attached :
    (e : ReadEnd) (body rest : Text) (v₀ : ℕ) (v : Text) (t : Token) (n : ℕ)
    → All (λ c. is_space c ≡ false) body
    → scan e (body ++ rest) (in_comment (v₀ ∷ v) t n) ≡ scan e rest (in_comment (v₀ ∷ v) t n)
scan-attached e [] rest v₀ v t n h = refl
scan-attached e (c ∷ body) rest v₀ v t n (p, h) =
    scan-loop e c (body ++ rest) _ (round-attached c v₀ v t n p)
    ∙ scan-attached e body rest v₀ v t n h

round-attached_break :
    (c v₀ : ℕ) (v : Text) (t : Token) (n : ℕ)
    → is_space c ≡ true
    → (c == b'\r') ≡ false
    → (c == b'\n') ≡ false
    → round c (in_comment (v₀ ∷ v) t n) ≡ make (in_comment (v₀ ∷ v) t n)
unfolding round
round-attached_break c v₀ v t n h r m = ground arith

-- A comment that starts right behind a word ends at the first space, not at the end of its line:
-- `next` returns the word, and the runes behind that space are read as further tokens.
pub next-attached_comment :
    (t : Token) (e : ReadEnd) (c : ℕ) (w body : Text) (b : ℕ) (rest : Text) (n : ℕ)
    → IsWordRune c
    → (c == b'"') ≡ false
    → All IsWordRune w
    → All (λ c. is_space c ≡ false) body
    → is_space b ≡ true
    → (b == b'\r') ≡ false
    → (b == b'\n') ≡ false
    → next (at t e (c ∷ (w ++ (b'#' ∷ (body ++ (b ∷ rest))))) n)
      ≡ loaded (at (token_at n (c ∷ w)) e rest n)
unfolding next
next-attached_comment t e c w body b rest n p q h k sp r m =
    scan-first e c w (b'#' ∷ (body ++ (b ∷ rest))) t n p q h
    ∙ scan-loop e b'#' (body ++ (b ∷ rest)) _ (round-mark c w (token_at n []) n)
    ∙ scan-attached e body (b ∷ rest) c w (token_at n []) n k
    ∙ scan-make e b rest _ (round-attached_break b c w (token_at n []) n sp r m)
