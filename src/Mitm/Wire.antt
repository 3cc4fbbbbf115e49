-- ===== src/Mitm/Wire.antt =====
-- Bytes as caddyhttp/httpserver/mitm.go reads them: an index or a slice out of range is a panic,
-- and `none` here.
use iotacaddy.Prelude.{
  ℕ, ◌+◌, ◌*◌, ◌≤◌, ◌<◌, Bool, true, false, Option, none, some, List, ◌≡◌, refl, if◌then◌else◌, leb,
  arith, length, get_elem?, get_elem?-lt, take, drop, length-drop,
}

abbrev pub Bytes : Type 0
Bytes = List ℕ

infixl 5 ◌>>=◌
abbrev pub ◌>>=◌ {ℓ κ} : {A : Type ℓ} {B : Type κ} → Option A → (A → Option B) → Option B
none >>= f = none
some a >>= f = f a

-- `uint16(data[i])<<8 | uint16(data[i+1])`.
unfoldable pub u16_at : Bytes → ℕ → Option ℕ
u16_at bs i = do a ← get_elem? bs i; b ← get_elem? bs (i + 1); some (a * 256 + b)

-- `data[n:]`.
unfoldable pub from : ℕ → Bytes → Option Bytes
from n bs = if leb n (length bs) then some (drop n bs) else none

-- `data[1 : 1+n]`.
unfoldable pub second_to : ℕ → Bytes → Option Bytes
second_to n bs = if leb (1 + n) (length bs) then some (take n (drop 1 bs)) else none

-- That there is no panic.
pub record Returns {ℓ} {A : Type ℓ} (o : Option A) : Type ℓ where
  pub value : A
  pub is_value : o ≡ some value

pub Returns-some {ℓ} : {A : Type ℓ} (a : A) → Returns (some a)
Returns-some a = record { value = a; is_value = refl }

pub Returns-bind {ℓ κ} :
    {A : Type ℓ} {B : Type κ} (o : Option A) (f : A → Option B)
    → Returns o
    → ((a : A) → o ≡ some a → Returns (f a))
    → Returns (o >>= f)
Returns-bind o f r h = rw r.is_value (h r.value r.is_value)

pub Returns-if {ℓ} :
    {A : Type ℓ} (b : Bool) (x y : Option A)
    → (b ≡ true → Returns x)
    → (b ≡ false → Returns y)
    → Returns (if b then x else y)
Returns-if true x y h g = h refl
Returns-if false x y h g = g refl

pub Returns-get : (bs : Bytes) (i : ℕ) → i < length bs → Returns (get_elem? bs i)
Returns-get bs i h = let (x, e) = get_elem?-lt bs i h in record { value = x; is_value = e }

pub Returns-u16_at : (bs : Bytes) (i : ℕ) → i + 1 < length bs → Returns (u16_at bs i)
unfolding u16_at
Returns-u16_at bs i h =
    Returns-bind (get_elem? bs i) _ (Returns-get bs i (omega arith))
      λ a e. Returns-bind (get_elem? bs (i + 1)) _ (Returns-get bs (i + 1) h) λ b e'. Returns-some _

pub Returns-from : (n : ℕ) (bs : Bytes) → n ≤ length bs → Returns (from n bs)
unfolding from
Returns-from n bs h =
    Returns-if (leb n (length bs)) _ _ (λ e. Returns-some _) λ e. absurd (ground arith)

pub Returns-second_to : (n : ℕ) (bs : Bytes) → 1 + n ≤ length bs → Returns (second_to n bs)
unfolding second_to
Returns-second_to n bs h =
    Returns-if (leb (1 + n) (length bs)) _ _ (λ e. Returns-some _) λ e. absurd (ground arith)

pub length-from : (n : ℕ) (bs d : Bytes) → from n bs ≡ some d → length bs ≡ n + length d
unfolding from
length-from n bs d e = ground (arith, length-drop n bs)
