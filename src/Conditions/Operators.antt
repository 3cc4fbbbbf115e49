-- ===== src/Conditions/Operators.antt =====
-- What the operators of caddyhttp/httpserver/condition.go say of two texts.
use iotacaddy.Prelude.{
  ◌-◌, Bool, true, not, some, [], ◌∷◌, ◌++◌, ◌≡◌, ◌≢◌, refl, sym, ap, ◌∙◌, subst, ◌↔◌, ==_iff, leb,
  arith, Text, codes, text_eq, text_eq_iff, length, take, drop, length-append, take-append_drop,
  drop-length_append, Bool-cases, inl, inr,
}
use iotacaddy.EnvVars.Defs.{has_prefix}
use iotacaddy.Conditions.Defs.{Compile, contains, has_suffix}

-- The operators, and their names.
pub data Operator : Type 0 where
  is_op not_op has_op starts_with_op ends_with_op matches_op : Operator

abbrev pub name : Operator → Text
name is_op = codes "is"
name not_op = codes "not"
name has_op = codes "has"
name starts_with_op = codes "starts_with"
name ends_with_op = codes "ends_with"
name matches_op = codes "match"

abbrev pub Relates : Compile → Operator → Text → Text → Type 0
Relates compile is_op a b = a ≡ b
Relates compile not_op a b = a ≢ b
Relates compile has_op a b = (before : Text) × (after : Text) × (a ≡ before ++ (b ++ after))
Relates compile starts_with_op a b = (after : Text) × (a ≡ b ++ after)
Relates compile ends_with_op a b = (before : Text) × (a ≡ before ++ b)
Relates compile matches_op a b = (test : Text → Bool) × (compile b ≡ some test) × (test a ≡ true)

prefix_of : (a b : Text) → has_prefix a b ≡ true → (after : Text) × (a ≡ b ++ after)
unfolding has_prefix
prefix_of a [] h = (a, refl)
prefix_of [] (p ∷ b) h = absurd (cc)
prefix_of (c ∷ a) (p ∷ b) h =
    let e : c ≡ p = ground (arith, ==_iff c p) in
    let (q, e') = prefix_of a b (ground arith) in (q, ap (λ x. x ∷ a) e ∙ ap (λ x. p ∷ x) e')

has_prefix-append : (b q : Text) → has_prefix (b ++ q) b ≡ true
unfolding has_prefix
has_prefix-append [] q = refl
has_prefix-append (c ∷ b) q = ground (arith, ==_iff c c, has_prefix-append b q)

pub has_prefix_iff :
    (compile : Compile) (a b : Text) → (has_prefix a b ≡ true) ↔ Relates compile starts_with_op a b
has_prefix_iff compile a b = (
  λ h. prefix_of a b h,
  λ (q, e). subst (λ x. has_prefix x b ≡ true) (sym e) (has_prefix-append b q),
)

part_of : (compile : Compile) (a b : Text) → contains a b ≡ true → Relates compile has_op a b
unfolding contains
part_of compile [] [] h = ([], [], refl)
part_of compile [] (x ∷ b) h = absurd (cc)
part_of compile (c ∷ a) b h = elim (Bool-cases (has_prefix (c ∷ a) b)) [
  | inl e ↦ let (q, e') = prefix_of (c ∷ a) b e in ([], q, e')
  | inr e ↦ let (p, q, e') = part_of compile a b (ground arith) in (c ∷ p, q, ap (λ x. c ∷ x) e')
]

contains-append : (p b q : Text) → contains (p ++ (b ++ q)) b ≡ true
unfolding contains has_prefix
contains-append [] [] [] = refl
contains-append [] [] (c ∷ q) = refl
contains-append [] (x ∷ b) q = ground (arith, ==_iff x x, has_prefix-append b q)
contains-append (c ∷ p) b q = ground (arith, contains-append p b q)

pub contains_iff :
    (compile : Compile) (a b : Text) → (contains a b ≡ true) ↔ Relates compile has_op a b
contains_iff compile a b = (
  λ h. part_of compile a b h,
  λ (p, q, e). subst (λ x. contains x b ≡ true) (sym e) (contains-append p b q),
)

has_suffix-append : (p b : Text) → has_suffix (p ++ b) b ≡ true
unfolding has_suffix
has_suffix-append p b =
    let l : leb (length b) (length (p ++ b)) ≡ true = ground (arith, length-append p b) in
    let n : length (p ++ b) - length b ≡ length p = omega (arith, length-append p b) in
    let e : text_eq (drop (length (p ++ b) - length b) (p ++ b)) b ≡ true =
      (text_eq_iff _ b).1 (ap (λ k. drop k (p ++ b)) n ∙ drop-length_append p b) in
    ground (arith, l, e)

pub has_suffix_iff :
    (compile : Compile) (a b : Text) → (has_suffix a b ≡ true) ↔ Relates compile ends_with_op a b
unfolding has_suffix
has_suffix_iff compile a b = (
  λ h.
      let n = length a - length b in
      let e : text_eq (drop n a) b ≡ true = ground arith in
      (
        take n a,
        sym (take-append_drop n a) ∙ ap (λ x. take n a ++ x) ((text_eq_iff (drop n a) b).0 e),
      ),
  λ (p, e). subst (λ x. has_suffix x b ≡ true) (sym e) (has_suffix-append p b),
)

pub not_eq_iff : (a b : Text) → (not (text_eq a b) ≡ true) ↔ (a ≢ b)
not_eq_iff a b = (
  λ h e. absurd (ground (arith, text_eq_iff a b)),
  λ n. elim (Bool-cases (text_eq a b)) [
    | inl e ↦ absurd (n ((text_eq_iff a b).0 e))
    | inr e ↦ rw e refl
  ],
)
