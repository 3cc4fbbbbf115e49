-- ===== src/Lexer/Reads.antt =====
-- What a call of `next` consumes (caddyfile/lexer.go), and the end of `allTokens`.
use iotacaddy.Prelude.{
  ℕ, zero, suc, ◌+◌, ◌≤◌, ◌<◌, Option, none, some, [], ◌∷◌, ◌++◌, ◌≡◌, inl, inr, refl, ap, subst,
  Bool-cases, arith, Text, length, length-append, count,
}
use iotacaddy.Lexer.Defs.{
  Token, ReadEnd, eof, failure, Reader, Lexer, load, Scan, Round, loop, make, is_nil, round,
  Outcome, loaded, ended, crash, leave, make_token, scan, scan_end, start, next, Lexing, lexed,
  crashed, spent, read_all, prepend, all_tokens,
}

-- One round counts the newline that it reads.
abbrev LineOf : ℕ → Scan → Round → Type 0
LineOf ch s (loop s') = s'.line ≡ s.line + count b'\n' (ch ∷ [])
LineOf ch s (make s') = s'.line ≡ s.line + count b'\n' (ch ∷ [])

round-LineOf : (ch : ℕ) (s : Scan) → LineOf ch s (round ch s)
unfolding round
round-LineOf ch s = ground arith

-- The lexer `l'` stands behind the runes `read` of `runes`.
pub record Behind (runes : Text) (e : ReadEnd) (line : ℕ) (l' : Lexer) : Type 0 where
  pub read : Text
  pub splits : runes ≡ read ++ l'.reader.runes
  pub line_is : l'.line ≡ line + count b'\n' read
  pub ending_is : l'.reader.ending ≡ e

Behind-here : (runes : Text) (e : ReadEnd) (s : Scan) → Behind runes e s.line (leave e runes s)
Behind-here runes e s = record { read = []; splits = refl; line_is = omega arith; ending_is = refl }

Behind-cons :
    (ch : ℕ) {cs : Text} {e : ReadEnd} {n m : ℕ} {l' : Lexer}
    → m ≡ n + count b'\n' (ch ∷ [])
    → Behind cs e m l'
    → Behind (ch ∷ cs) e n l'
Behind-cons ch h b = record {
  read = ch ∷ b.read;
  splits = ap (◌∷◌ ch) b.splits;
  line_is = let h' = b.line_is in omega arith;
  ending_is = b.ending_is;
}

abbrev pub Behinds : Text → ReadEnd → ℕ → Outcome → Type 0
Behinds runes e n (loaded l') = Behind runes e n l'
Behinds runes e n (ended l') = Behind runes e n l' × (l'.reader.runes ≡ []) × (e ≡ eof)
Behinds runes e n crash = e ≡ failure

scan_end-Behinds : (e : ReadEnd) (s : Scan) → Behinds [] e s.line (scan_end e s)
unfolding scan_end
scan_end-Behinds e s = elim (Bool-cases (is_nil s.val)) [
  | inl h ↦ rw h (at_end e)
  | inr h ↦ rw h (Behind-here [] e (record s { token = record s.token { text = s.val } }))
]
  where
    at_end :
        (e : ReadEnd)
        → Behinds [] e s.line (elim e [ eof ↦ ended (leave eof [] s) | failure ↦ crash ])
    at_end eof = (Behind-here [] eof s, refl, refl)
    at_end failure = refl

Behinds-cons :
    (ch : ℕ) (cs : Text) (e : ReadEnd) (n m : ℕ) (o : Outcome)
    → m ≡ n + count b'\n' (ch ∷ [])
    → Behinds cs e m o
    → Behinds (ch ∷ cs) e n o
Behinds-cons ch cs e n m (loaded l') h b = Behind-cons ch h b
Behinds-cons ch cs e n m (ended l') h (b, r, q) = (Behind-cons ch h b, r, q)
Behinds-cons ch cs e n m crash h b = b

Behinds-round :
    (e : ReadEnd) (ch : ℕ) (cs : Text) (s : Scan) (r : Round)
    → LineOf ch s r
    → ((s' : Scan) → Behinds cs e s'.line (scan e cs s'))
    → Behinds
        (ch ∷ cs)
        e
        s.line
        (elim r [ loop s' ↦ scan e cs s' | make s' ↦ loaded (make_token e cs s') ])
Behinds-round e ch cs s (loop s') h ih =
    Behinds-cons ch cs e s.line s'.line (scan e cs s') h (ih s')
Behinds-round e ch cs s (make s') h ih =
    Behind-cons ch h (Behind-here cs e (record s' { token = record s'.token { text = s'.val } }))

scan-Behinds : (e : ReadEnd) (cs : Text) (s : Scan) → Behinds cs e s.line (scan e cs s)
unfolding scan
scan-Behinds e [] s = scan_end-Behinds e s
scan-Behinds e (ch ∷ cs) s =
    Behinds-round e ch cs s (round ch s) (round-LineOf ch s) (scan-Behinds e cs)

-- Every call of `next` reads a prefix of the runes, leaves the rest unread, and its line number
-- grows by the newlines of that prefix; it reports the end of the input only when no rune is left
-- and the reader ended with EOF, and panics only when the reader failed.
pub next-Behinds : (l : Lexer) → Behinds l.reader.runes l.reader.ending l.line (next l)
unfolding next
next-Behinds l = scan-Behinds l.reader.ending l.reader.runes (start l)

-- Progress: with nothing collected, a token costs a rune.
load_ending : (r : Reader) (l : Lexer) → load r ≡ some l → l.reader.ending ≡ r.ending
unfolding load
load_ending r l h = ground arith

abbrev Shorter : Text → Outcome → Type 0
Shorter cs (loaded l') = length l'.reader.runes < length cs
Shorter cs (ended l') = Unit
Shorter cs crash = Unit

length-Behind :
    {cs : Text} {e : ReadEnd} {n : ℕ} {l' : Lexer}
    → Behind cs e n l'
    → length l'.reader.runes ≤ length cs
length-Behind {l' = l'} b =
    omega (arith, ap {B = ℕ} length b.splits, length-append b.read l'.reader.runes)

Shorter-cons :
    (ch : ℕ) (cs : Text) (e : ReadEnd) (n : ℕ) (o : Outcome)
    → Behinds cs e n o
    → Shorter (ch ∷ cs) o
Shorter-cons ch cs e n (loaded l') b = omega (arith, length-Behind b)
Shorter-cons ch cs e n (ended l') b = tt
Shorter-cons ch cs e n crash b = tt

Shorter-round :
    (e : ReadEnd) (ch : ℕ) (cs : Text) (r : Round)
    → Shorter (ch ∷ cs) (elim r [ loop s' ↦ scan e cs s' | make s' ↦ loaded (make_token e cs s') ])
Shorter-round e ch cs (loop s') = Shorter-cons ch cs e s'.line (scan e cs s') (scan-Behinds e cs s')
Shorter-round e ch cs (make s') = omega arith

scan-Shorter : (l : Lexer) (e : ReadEnd) (cs : Text) → Shorter cs (scan e cs (start l))
unfolding scan scan_end
scan-Shorter l eof [] = tt
scan-Shorter l failure [] = tt
scan-Shorter l e (ch ∷ cs) = Shorter-round e ch cs (round ch (start l))

next-Shorter : (l : Lexer) → Shorter l.reader.runes (next l)
unfolding next
next-Shorter l = scan-Shorter l l.reader.ending l.reader.runes

-- How the loop of `allTokens` ends, with enough fuel: with the tokens if the reader ended with
-- EOF, and with a panic only if it failed.
abbrev pub Ends : ReadEnd → Lexing → Type 0
Ends e (lexed ts) = e ≡ eof
Ends e crashed = e ≡ failure
Ends e spent = ⊥

Ends-prepend : (e : ReadEnd) (t : Token) (r : Lexing) → Ends e r → Ends e (prepend t r)
Ends-prepend e t (lexed ts) h = h
Ends-prepend e t crashed h = h
Ends-prepend e t spent h = h

read_all-Ends :
    (f : ℕ) (l : Lexer) → length l.reader.runes < f → Ends l.reader.ending (read_all f l)
unfolding read_all
read_all-Ends zero l h = absurd (omega arith)
read_all-Ends (suc f) l h = go (next l) (next-Shorter l) (next-Behinds l) (read_all-Ends f)
  where
    go :
        (o : Outcome)
        → Shorter l.reader.runes o
        → Behinds l.reader.runes l.reader.ending l.line o
        → ((l' : Lexer) → length l'.reader.runes < f → Ends l'.reader.ending (read_all f l'))
        → Ends l.reader.ending (elim o [
          | loaded l' ↦ prepend l'.token (read_all f l')
          | ended l' ↦ lexed []
          | crash ↦ crashed
        ])
    go (loaded l') short b ih =
        Ends-prepend _ l'.token _
          (subst (λ e. Ends e (read_all f l')) b.ending_is (ih l' (omega arith)))
    go (ended l') short (b, r, q) ih = q
    go crash short b ih = b

abbrev pub AllEnds : ReadEnd → Option Lexing → Type 0
AllEnds e none = Unit
AllEnds e (some r) = Ends e r

-- The loop of `allTokens` ends on every input: with the tokens only if the reader ended with EOF,
-- and with a panic only if the reader failed. It never runs out of the fuel of the model.
pub all_tokens-Ends : (r : Reader) → AllEnds r.ending (all_tokens r)
unfolding all_tokens
all_tokens-Ends r = go (load r) refl
  where
    go :
        (o : Option Lexer)
        → load r ≡ o
        → AllEnds r.ending
            (elim o [ none ↦ none | some l ↦ some (read_all (suc (length l.reader.runes)) l) ])
    go none h = tt
    go (some l) h =
        subst (λ e. Ends e (read_all (suc (length l.reader.runes)) l)) (load_ending r l h)
          (read_all-Ends (suc (length l.reader.runes)) l (omega arith))
