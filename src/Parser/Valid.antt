-- ===== src/Parser/Valid.antt =====
-- The check of directives by the parser of caddyfile/parse.go.
use iotacaddy.Prelude.{
  ℕ, zero, suc, ◌-◌, Bool, true, false, not, ◌&&◌, Option, none, some, List, [], ◌∷◌, ◌++◌, ◌≡◌,
  refl, ◌⊎◌, Bool-cases, inl, inr, if◌then◌else◌, Text, text_eq, All, arith, length, ◌==◌, ltb,
}
use iotacaddy.Lexer.Defs.{Token, Reader}
use iotacaddy.Dispenser.Defs.{
  Dispenser, current, step_back, next, val, is_new_line, open_brace, close_brace, eof_err, err,
  unmatched_brace, unknown_directive, redeclared, new_dispenser,
}
use iotacaddy.EnvVars.Defs.{replace_env_vars}
use iotacaddy.Parser.Import.{find_snippet, do_import}
use iotacaddy.Parser.World.{World}
use iotacaddy.Parser.Result.{
  Result, ok, crash, spent, ◌>>=◌, or_spent, Ensures, Ensures-bind, Ensures-then, Ensures-ok,
  Ensures-err, Ensures-crash, Ensures-spent, Ensures-if,
}
use iotacaddy.Parser.Defs.{
  Grouped, ServerBlock, append_token, Parser, at, import_here, add_key, Round, again, finished,
  address_round, addresses, valid_directive, collect, replace_current, keep_token, Step, keep, stop,
  unmatched, splice_in, decide_step, directive_loop, directive, directives, block_contents,
  is_snippet, snippet_tokens, define_snippet, begin, parse_one, has_keys, Parsed, parsed, panicked,
  unfinished, parse_all, parse, import_word, new_parser, set,
}

abbrev pub AllValid : Option (List Text) → Grouped → Type 0
AllValid vs [] = Unit
AllValid vs ((d, ts) ∷ m) = (valid_directive d vs ≡ true) × AllValid vs m

module _ (vs : Option (List Text)) where
  append_token-AllValid :
      (dir : Text) (t : Token) (m : Grouped)
      → valid_directive dir vs ≡ true
      → AllValid vs m
      → AllValid vs (append_token dir t m)
  unfolding append_token
  append_token-AllValid dir t [] v h = (v, tt)
  append_token-AllValid dir t ((d, ts) ∷ m) v (w, h) = elim (Bool-cases (text_eq d dir)) [
    | inl e ↦ rw e (w, h)
    | inr e ↦ rw e (w, append_token-AllValid dir t m v h)
  ]

  record Inv (p : Parser) : Type 0 where
    directives_are : p.valid_directives ≡ vs
    grouped : AllValid vs p.block.tokens

  import_here-Inv : (f : ℕ) (w : World) (p : Parser) → Inv p → Ensures Inv (import_here f w p)
  unfolding import_here
  import_here-Inv f w p i =
      Ensures-then Inv (do_import f w p.snippets p.disp) _
        λ d. Ensures-ok Inv _ (record { directives_are = i.directives_are; grouped = i.grouped })

  add_key-tokens :
      (tkn : Text) (expecting : Bool) (b : ServerBlock)
      → (add_key tkn expecting b).0.tokens ≡ b.tokens
  unfolding add_key
  add_key-tokens tkn expecting b = ground arith

  abbrev RoundInv : Round × Bool → Type 0
  RoundInv r = elim r.0 [ again p ↦ Inv p | finished p ↦ Inv p ]

  address_round-Inv :
      (tkn : Text) (expecting : Bool) (p : Parser)
      → Inv p
      → Ensures RoundInv (address_round tkn expecting p)
  unfolding address_round
  address_round-Inv tkn expecting p i =
      let d' = (next p.disp).0 in
      let more = (next p.disp).1 in
      let e' = (add_key tkn expecting p.block).1 in
      let p' : Parser = record p { disp = d'; block = (add_key tkn expecting p.block).0 } in
      let i' : Inv p' = record {
        directives_are = i.directives_are;
        grouped = rw (add_key-tokens tkn expecting p.block) i.grouped;
      } in
      Ensures-if RoundInv (e' && not more) _ _ (λ _. Ensures-err RoundInv (eof_err d'))
        (λ _.
          Ensures-if RoundInv (not more) _ _
            (λ _.
              Ensures-ok RoundInv (finished (record p' { eof = true }), e')
                (record { directives_are = i'.directives_are; grouped = i'.grouped }))
            (λ _.
              Ensures-if RoundInv (not e' && is_new_line d') _ _
                (λ _. Ensures-ok RoundInv (finished p', e') i')
                (λ _. Ensures-ok RoundInv (again p', e') i')))

  next_round-Inv :
      (f : ℕ) (w : World) (e : Bool) (r : Round)
      → RoundInv (r, e)
      → ((e : Bool) (p' : Parser) → Inv p' → Ensures Inv (addresses f w e p'))
      → Ensures Inv (elim r [ again p' ↦ addresses f w e p' | finished p' ↦ ok p' ])
  next_round-Inv f w e (again p') h ih = ih e p' h
  next_round-Inv f w e (finished p') h ih = Ensures-ok Inv p' h

  addresses-Inv :
      (f : ℕ) (w : World) (expecting : Bool) (p : Parser)
      → Inv p
      → Ensures Inv (addresses f w expecting p)
  unfolding addresses
  addresses-Inv zero w expecting p i = Ensures-spent Inv
  addresses-Inv (suc f) w expecting p i =
      Ensures-then Inv (or_spent (replace_env_vars f w.getenv (val p.disp))) _ λ tkn.
        Ensures-if Inv (text_eq tkn import_word && is_new_line p.disp) _ _
          (λ _.
            Ensures-bind Inv Inv (import_here f w p) _ (import_here-Inv f w p i)
              λ p' i'. addresses-Inv f w expecting p' i')
          (λ _.
            Ensures-if Inv (text_eq tkn open_brace) _ _
              (λ _. Ensures-if Inv expecting _ _ (λ _. Ensures-err Inv _) (λ _. Ensures-ok Inv _ i))
              (λ _.
                Ensures-bind RoundInv Inv (address_round tkn expecting p) _
                  (address_round-Inv tkn expecting p i)
                  λ (r, e) h. next_round-Inv f w e r h (addresses-Inv f w)))

  collect-Inv :
      (dir : Text) (p : Parser)
      → Inv p
      → valid_directive dir vs ≡ true
      → Ensures Inv (collect dir p)
  unfolding collect
  collect-Inv dir p i v = kept (current p.disp)
    where
      kept :
          (o : Option Token)
          → Ensures Inv (elim o [
            | none ↦ crash
            | some t ↦
                ok (record p {
                  block = record p.block { tokens = append_token dir t p.block.tokens };
                })
          ])
      kept none = Ensures-crash Inv
      kept (some t) = Ensures-ok Inv _ (record {
        directives_are = i.directives_are;
        grouped = append_token-AllValid dir t p.block.tokens v i.grouped;
      })

  replace_current-Inv :
      (f : ℕ) (w : World) (p : Parser) → Inv p → Ensures Inv (replace_current f w p)
  unfolding replace_current
  replace_current-Inv f w p i = kept (current p.disp)
    where
      kept :
          (o : Option Token)
          → Ensures Inv (elim o [
            | none ↦ crash
            | some t ↦
                (or_spent (replace_env_vars f w.getenv t.text) >>= λ text'. ok (
                  at p (record p.disp {
                    tokens = set p.disp.tokens (p.disp.loaded - 1) (record t { text = text' });
                  })))
          ])
      kept none = Ensures-crash Inv
      kept (some t) = Ensures-then Inv (or_spent (replace_env_vars f w.getenv t.text)) _ λ text'.
          Ensures-ok Inv _ (record { directives_are = i.directives_are; grouped = i.grouped })

  keep_token-Inv :
      (f : ℕ) (w : World) (dir : Text) (p : Parser)
      → Inv p
      → valid_directive dir vs ≡ true
      → Ensures Inv (keep_token f w dir p)
  unfolding keep_token
  keep_token-Inv f w dir p i v =
      Ensures-bind Inv Inv (replace_current f w p) _ (replace_current-Inv f w p i)
        λ p' i'. collect-Inv dir p' i' v

  at-Inv : (p : Parser) (d : Dispenser) → Inv p → Inv (at p d)
  at-Inv p d i = record { directives_are = i.directives_are; grouped = i.grouped }

  directive_loop-Inv :
      (f : ℕ) (w : World) (dir : Text) (nesting : ℕ) (p : Parser)
      → Inv p
      → valid_directive dir vs ≡ true
      → Ensures Inv (directive_loop f w dir nesting p)
  unfolding directive_loop
  directive_loop-Inv zero w dir nesting p i v = Ensures-spent Inv
  directive_loop-Inv (suc f) w dir nesting p i v =
      let d' = (next p.disp).0 in
      let i' = at-Inv p d' i in
      Ensures-if Inv (not (next p.disp).1) _ _
        (λ _.
          Ensures-if Inv (ltb 0 nesting) _ _ (λ _. Ensures-err Inv _) (λ _. Ensures-ok Inv _ i'))
        (λ _.
          stepped (decide_step d' nesting) (λ n p'' i''. directive_loop-Inv f w dir n p'' i'' v))
    where
      stepped :
          (s : Step)
          → ((n : ℕ) (p'' : Parser) → Inv p'' → Ensures Inv (directive_loop f w dir n p''))
          → Ensures Inv (elim s [
            | keep n ↦
                keep_token f w dir (at p (next p.disp).0) >>= λ p'. directive_loop f w dir n p'
            | stop ↦ ok (at p (step_back (next p.disp).0))
            | unmatched ↦ Result.err (err (next p.disp).0 unmatched_brace)
            | splice_in ↦ import_here f w (at p (next p.disp).0) >>= λ p'.
                directive_loop f w dir nesting (at p' (step_back p'.disp))
          ])
      stepped (keep n) ih =
          Ensures-bind Inv Inv (keep_token f w dir (at p (next p.disp).0)) _
            (keep_token-Inv f w dir (at p (next p.disp).0) (at-Inv p (next p.disp).0 i) v)
            λ p' i'. ih n p' i'
      stepped stop ih = Ensures-ok Inv _ (at-Inv p (step_back (next p.disp).0) i)
      stepped unmatched ih = Ensures-err Inv _
      stepped splice_in ih =
          Ensures-bind Inv Inv (import_here f w (at p (next p.disp).0)) _
            (import_here-Inv f w (at p (next p.disp).0) (at-Inv p (next p.disp).0 i))
            λ p' i'. ih nesting (at p' (step_back p'.disp)) (at-Inv p' (step_back p'.disp) i')

  directive-Inv : (f : ℕ) (w : World) (p : Parser) → Inv p → Ensures Inv (directive f w p)
  unfolding directive
  directive-Inv f w p i =
      Ensures-then Inv (or_spent (replace_env_vars f w.getenv (val p.disp))) _
        λ dir. checked dir (Bool-cases (valid_directive dir p.valid_directives))
    where
      checked :
          (dir : Text)
          → (valid_directive dir p.valid_directives ≡ true)
            ⊎ (valid_directive dir p.valid_directives ≡ false)
          → Ensures Inv (
              if not (valid_directive dir p.valid_directives)
              then Result.err (err p.disp (unknown_directive dir))
              else collect dir p >>= λ p'.
                  directive_loop f w dir 0 (record p' { reported = p'.reported ++ (dir ∷ []) }))
      checked dir (inr e) = rw e (Ensures-err Inv _)
      checked dir (inl e) =
          let v : valid_directive dir vs ≡ true = rw i.directives_are at e in
          rw e (
            Ensures-bind Inv Inv (collect dir p) _ (collect-Inv dir p i v) λ p' i'.
              directive_loop-Inv f w dir 0 _
                (record { directives_are = i'.directives_are; grouped = i'.grouped }) v)

  directives-Inv : (f : ℕ) (w : World) (p : Parser) → Inv p → Ensures Inv (directives f w p)
  unfolding directives
  directives-Inv zero w p i = Ensures-spent Inv
  directives-Inv (suc f) w p i =
      let d' = (next p.disp).0 in
      let i' = at-Inv p d' i in
      Ensures-if Inv (not (next p.disp).1) _ _ (λ _. Ensures-ok Inv _ i')
        (λ _.
          Ensures-if Inv (text_eq (val d') close_brace) _ _ (λ _. Ensures-ok Inv _ i')
            (λ _.
              Ensures-if Inv (text_eq (val d') import_word) _ _
                (λ _.
                  Ensures-bind Inv Inv (import_here f w (at p d')) _
                    (import_here-Inv f w (at p d') i')
                    λ p₁ i₁.
                      directives-Inv f w (at p₁ (step_back p₁.disp))
                        (at-Inv p₁ (step_back p₁.disp) i₁))
                (λ _.
                  Ensures-bind Inv Inv (directive f w (at p d')) _ (directive-Inv f w (at p d') i')
                    λ p₁ i₁. directives-Inv f w p₁ i₁)))

  block_contents-Inv : (f : ℕ) (w : World) (p : Parser) → Inv p → Ensures Inv (block_contents f w p)
  unfolding block_contents
  block_contents-Inv f w p i =
      Ensures-if Inv (text_eq (val p.disp) open_brace) _ _
        (λ _. Ensures-bind Inv Inv (directives f w p) _ (directives-Inv f w p i) λ p' i'.
          Ensures-if Inv (text_eq (val p'.disp) close_brace) _ _ (λ _. Ensures-ok Inv _ i')
            (λ _. Ensures-err Inv _))
        (λ _. directives-Inv f w (at p (step_back p.disp)) (at-Inv p (step_back p.disp) i))

  define_snippet-Inv :
      (f : ℕ) (name : Text) (p : Parser) → Inv p → Ensures Inv (define_snippet f name p)
  unfolding define_snippet
  define_snippet-Inv f name p i = defined (find_snippet name p.snippets)
    where
      defined :
          (o : Option (List Token))
          → Ensures Inv (elim o [
            | some _ ↦ Result.err (err p.disp (redeclared name))
            | none ↦ snippet_tokens f p.disp >>= λ (d', ts). ok (record p {
              disp = d';
              snippets = (name, ts) ∷ p.snippets;
              block = record p.block { keys = [] };
            })
          ])
      defined (some ts) = Ensures-err Inv _
      defined none =
          Ensures-then Inv (snippet_tokens f p.disp) _ λ r.
            Ensures-ok Inv _ (record { directives_are = i.directives_are; grouped = i.grouped })

  begin-Inv : (f : ℕ) (w : World) (p : Parser) → Inv p → Ensures Inv (begin f w p)
  unfolding begin
  begin-Inv f w p i =
      Ensures-if Inv (length p.disp.tokens == 0) _ _ (λ _. Ensures-ok Inv _ i)
        (λ _. Ensures-bind Inv Inv (addresses f w false p) _ (addresses-Inv f w false p i) λ p' i'.
          Ensures-if Inv p'.eof _ _ (λ _. Ensures-ok Inv _ i')
            (λ _. named p' i' (is_snippet p'.block.keys)))
    where
      named :
          (p' : Parser)
          → Inv p'
          → (o : Option Text)
          → Ensures Inv
              (elim o [ some name ↦ define_snippet f name p' | none ↦ block_contents f w p' ])
      named p' i' (some name) = define_snippet-Inv f name p' i'
      named p' i' none = block_contents-Inv f w p' i'

  parse_one-Inv :
      (f : ℕ) (w : World) (p : Parser) → p.valid_directives ≡ vs → Ensures Inv (parse_one f w p)
  unfolding parse_one
  parse_one-Inv f w p e = begin-Inv f w _ (record { directives_are = e; grouped = tt })

  abbrev pub BlocksValid : List ServerBlock → Type 0
  BlocksValid = All (λ b. AllValid vs b.tokens)

  abbrev pub ParsedValid : Parsed → Type 0
  ParsedValid (parsed blocks e) = BlocksValid blocks
  ParsedValid panicked = Unit
  ParsedValid unfinished = Unit

  BlocksValid-append :
      (bs : List ServerBlock) (b : ServerBlock)
      → BlocksValid bs
      → AllValid vs b.tokens
      → BlocksValid (bs ++ (b ∷ []))
  BlocksValid-append [] b h v = (v, tt)
  BlocksValid-append (x ∷ bs) b (p, h) v = (p, BlocksValid-append bs b h v)

  parse_all-ParsedValid :
      (f : ℕ) (w : World) (bs : List ServerBlock) (p : Parser)
      → BlocksValid bs
      → p.valid_directives ≡ vs
      → ParsedValid (parse_all f w bs p)
  unfolding parse_all
  parse_all-ParsedValid zero w bs p h e = tt
  parse_all-ParsedValid (suc f) w bs p h e = elim (Bool-cases (next p.disp).1) [
    | inr m ↦ rw m h
    | inl m ↦ rw m (
        parsed_on (parse_one f w (at p (next p.disp).0)) (parse_one-Inv f w _ e)
          λ bs' p' h' e'. parse_all-ParsedValid f w bs' p' h' e')
  ]
    where
      parsed_on :
          (r : Result Parser)
          → Ensures Inv r
          → ((bs' : List ServerBlock) (p' : Parser)
              → BlocksValid bs'
              → p'.valid_directives ≡ vs
              → ParsedValid (parse_all f w bs' p'))
          → ParsedValid (elim r [
            | ok p' ↦
                parse_all f w (if has_keys p'.block.keys then bs ++ (p'.block ∷ []) else bs) p'
            | Result.err e ↦ parsed bs (some e)
            | crash ↦ panicked
            | spent ↦ unfinished
          ])
      parsed_on (Result.err x) i ih = h
      parsed_on crash i ih = tt
      parsed_on spent i ih = tt
      parsed_on (ok p') h' ih =
          let i = h'.on_ok p' refl in
          elim (Bool-cases (has_keys p'.block.keys)) [
            | inl k ↦ rw k (
                ih (bs ++ (p'.block ∷ [])) p' (BlocksValid-append bs p'.block h i.grouped)
                  i.directives_are)
            | inr k ↦ rw k (ih bs p' h i.directives_are)
          ]

-- In every block that `Parse` returns, beside an error too, the tokens stand under valid
-- directives only, whatever is imported, whatever the environment variables hold.
pub parse-ParsedValid :
    (f : ℕ) (w : World) (name : Text) (input : Reader) (vs : Option (List Text))
    → ParsedValid vs (parse f w name input vs)
unfolding parse
parse-ParsedValid f w name input vs = on (new_dispenser name input)
  where
    on :
        (o : Option Dispenser)
        → ParsedValid vs (elim o [ none ↦ panicked | some d ↦ parse_all f w [] (new_parser d vs) ])
    on none = tt
    on (some d) = parse_all-ParsedValid vs f w [] (new_parser d vs) tt refl
