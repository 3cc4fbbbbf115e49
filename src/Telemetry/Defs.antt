-- ===== src/Telemetry/Defs.antt =====
-- The collection functions of telemetry/collection.go. The state is what they read and write of
-- the package's variables; `bufferMu` makes each call one step. A value is what the caller gave, a
-- number, a list, a counting set or a nested map.
use iotacaddy.Prelude.{
  ℕ, suc, ◌+◌, Bool, false, not, ◌||◌, Option, none, some, List, [], ◌∷◌, ◌++◌, leb, if◌then◌else◌,
  Text, text_eq, take,
}
use iotacaddy.Net.{position}

-- What a metric may be. An `int` is the difference of two numbers.
pub data Value : Type 0 where
  other : Text → Value
  int : ℕ → ℕ → Value
  list : List Text → Value
  counting_set : List (Text × ℕ) → Value
  nested : List (Text × Text) → Value

module _ {V : Type 0} where
  unfoldable pub lookup : Text → List (Text × V) → Option V
  lookup k [] = none
  lookup k ((j, v) ∷ m) = if text_eq j k then some v else lookup k m

  unfoldable pub put : Text → V → List (Text × V) → List (Text × V)
  put k v [] = (k, v) ∷ []
  put k v ((j, w) ∷ m) = if text_eq j k then (j, v) ∷ m else (j, w) ∷ put k v m

-- `maxBufferItems`.
abbrev pub max_buffer_items : ℕ
max_buffer_items = 100000

pub record Telemetry : Type 0 where
  pub enabled : Bool
  pub disabled : List Text
  pub buffer : List (Text × Value)
  pub item_count : ℕ

unfoldable pub is_listed : Text → List Text → Bool
is_listed k [] = false
is_listed k (j ∷ js) = text_eq j k || is_listed k js

-- The key up to its first colon.
unfoldable pub check_key : Text → Text
check_key key = elim (position b':' key) [ none ↦ key | some i ↦ take i key ]

unfoldable pub is_disabled : Text → Telemetry → Bool
unfolding check_key is_listed
is_disabled key t = is_listed (check_key key) t.disabled

abbrev pub off : Text → Telemetry → Bool
off key t = not t.enabled || is_disabled key t

abbrev pub full : Telemetry → Bool
full t = leb max_buffer_items t.item_count

-- A new item is stored unless the buffer is full.
abbrev pub store_new : Text → Value → Telemetry → Telemetry
store_new key v t =
    if full t then t else record t { buffer = put key v t.buffer; item_count = suc t.item_count }

abbrev pub store : Text → Value → Telemetry → Telemetry
store key v t = record t { buffer = put key v t.buffer }

unfoldable pub set_value : Text → Value → Option Value → Telemetry → Telemetry
set_value key v none t = store_new key v t
set_value key v (some _) t = store key v t

unfoldable pub set : Text → Value → Telemetry → Telemetry
unfolding set_value
set key v t = if off key t then t else set_value key v (lookup key t.buffer) t

-- `SetNested` on what the buffer holds at the key. A value that is no map is left alone.
unfoldable pub nest_value : Text → Text → Text → Option Value → Telemetry → Telemetry
nest_value key subkey v none t = store_new key (nested ((subkey, v) ∷ [])) t
nest_value key subkey v (some (nested m)) t = elim (lookup subkey m) [
  | none ↦ store_new key (nested (put subkey v m)) t
  | some _ ↦ store key (nested (put subkey v m)) t
]
nest_value key subkey v (some _) t = t

unfoldable pub set_nested : Text → Text → Text → Telemetry → Telemetry
unfolding nest_value
set_nested key subkey v t = if off key t then t else nest_value key subkey v (lookup key t.buffer) t

unfoldable pub append_value : Text → Text → Option Value → Telemetry → Telemetry
append_value key v none t = store_new key (list (v ∷ [])) t
append_value key v (some (list l)) t = store_new key (list (l ++ (v ∷ []))) t
append_value key v (some _) t = t

-- `Append`.
unfoldable pub append_to : Text → Text → Telemetry → Telemetry
unfolding append_value
append_to key v t =
    if off key t then t else if full t then t else append_value key v (lookup key t.buffer) t

-- `setVal[value]++`.
abbrev pub or_zero : Option ℕ → ℕ
or_zero none = 0
or_zero (some n) = n

abbrev pub bump : Text → List (Text × ℕ) → List (Text × ℕ)
bump v m = put v (suc (or_zero (lookup v m))) m

unfoldable pub unique_value : Text → Text → Option Value → Telemetry → Telemetry
unique_value key v none t = store_new key (counting_set ((v, 1) ∷ [])) t
unique_value key v (some (counting_set m)) t = store key (counting_set (bump v m)) t
unique_value key v (some _) t = t

unfoldable pub append_unique : Text → Text → Telemetry → Telemetry
unfolding unique_value
append_unique key v t = if off key t then t else unique_value key v (lookup key t.buffer) t

-- `atomicAdd` of `up - down`.
unfoldable pub add_value : Text → ℕ → ℕ → Option Value → Telemetry → Telemetry
add_value key up down none t = store_new key (int up down) t
add_value key up down (some (int a b)) t = store key (int (a + up) (b + down)) t
add_value key up down (some _) t = t

unfoldable pub atomic_add : Text → ℕ → ℕ → Telemetry → Telemetry
unfolding add_value
atomic_add key up down t = if off key t then t else add_value key up down (lookup key t.buffer) t

-- `resetBuffer`: the new state, and the buffer that was.
unfoldable pub reset : Telemetry → Telemetry × List (Text × Value)
reset t = (record t { buffer = []; item_count = 0 }, t.buffer)

-- The calls of the package, as steps.
pub data Call : Type 0 where
  set_call : Text → Value → Call
  set_nested_call : Text → Text → Text → Call
  append_call : Text → Text → Call
  append_unique_call : Text → Text → Call
  add_call : Text → ℕ → ℕ → Call
  reset_call : Call

unfoldable pub run : Call → Telemetry → Telemetry
run (set_call k v) t = set k v t
run (set_nested_call k s v) t = set_nested k s v t
run (append_call k v) t = append_to k v t
run (append_unique_call k v) t = append_unique k v t
run (add_call k up down) t = atomic_add k up down t
run reset_call t = (reset t).0

unfoldable pub run_all : List Call → Telemetry → Telemetry
unfolding run
run_all [] t = t
run_all (c ∷ cs) t = run_all cs (run c t)
