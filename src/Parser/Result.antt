-- ===== src/Parser/Result.antt =====
-- What a method of the parser of caddyfile/parse.go may do: return, report an error, panic, or run
-- longer than the fuel of the model.
use iotacaddy.Prelude.{◌≡◌, refl, subst, Bool, true, false, Option, none, some, if◌then◌else◌}
use iotacaddy.Dispenser.Defs.{Error}

pub data Result {ℓ} (A : Type ℓ) : Type ℓ where
  crash spent : Result A
  err : Error → Result A
  ok : A → Result A

infixl 5 ◌>>=◌
abbrev pub ◌>>=◌ {ℓ κ} : {A : Type ℓ} {B : Type κ} → Result A → (A → Result B) → Result B
crash >>= f = crash
spent >>= f = spent
err e >>= f = err e
ok a >>= f = f a

abbrev pub or_spent {ℓ} : {A : Type ℓ} → Option A → Result A
or_spent none = spent
or_spent (some a) = ok a

abbrev pub or_err {ℓ} : {A : Type ℓ} → Error → Option A → Result A
or_err e none = err e
or_err e (some a) = ok a

ok-injective {ℓ} : {A : Type ℓ} {a b : A} → ok a ≡ ok b → a ≡ b
ok-injective h = cc

-- What holds of a result, if there is one.
pub record Ensures {ℓ κ} {A : Type ℓ} (P : A → Type κ) (m : Result A) : Type (ℓ ⊔ κ) where
  pub on_ok : (a : A) → m ≡ ok a → P a

module _ {ℓ κ} {A : Type ℓ} (P : A → Type κ) where
  pub Ensures-ok : (a : A) → P a → Ensures P (ok a)
  Ensures-ok a h = record { on_ok = λ b e. subst P (ok-injective e) h }

  pub Ensures-err : (e : Error) → Ensures P (err e)
  Ensures-err e = record { on_ok = λ a h. absurd (cc) }

  pub Ensures-crash : Ensures P crash
  Ensures-crash = record { on_ok = λ a h. absurd (cc) }

  pub Ensures-spent : Ensures P spent
  Ensures-spent = record { on_ok = λ a h. absurd (cc) }

  pub Ensures-if :
      (b : Bool) (m n : Result A)
      → (b ≡ true → Ensures P m)
      → (b ≡ false → Ensures P n)
      → Ensures P (if b then m else n)
  Ensures-if true m n h k = h refl
  Ensures-if false m n h k = k refl

pub Ensures-bind {ℓ κ μ ν} :
    {A : Type ℓ} {B : Type κ} (P : A → Type μ) (Q : B → Type ν) (m : Result A) (f : A → Result B)
    → Ensures P m
    → ((a : A) → P a → Ensures Q (f a))
    → Ensures Q (m >>= f)
Ensures-bind P Q (ok a) f h k = k a (h.on_ok a refl)
Ensures-bind P Q (err e) f h k = Ensures-err Q e
Ensures-bind P Q crash f h k = Ensures-crash Q
Ensures-bind P Q spent f h k = Ensures-spent Q

-- The rule for a bind where the first part has nothing to say.
pub Ensures-then {ℓ κ ν} :
    {A : Type ℓ} {B : Type κ} (Q : B → Type ν) (m : Result A) (f : A → Result B)
    → ((a : A) → Ensures Q (f a))
    → Ensures Q (m >>= f)
Ensures-then Q m f k = Ensures-bind (λ a. Unit {0}) Q m f (record { on_ok = λ a e. tt }) λ a u. k a
