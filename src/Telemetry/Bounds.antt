-- ===== src/Telemetry/Bounds.antt =====
-- The size of the buffer of telemetry/collection.go, and what a call leaves alone.
use iotacaddy.Prelude.{
  ℕ, suc, ◌+◌, ◌≤◌, true, false, Option, none, some, List, [], ◌∷◌, ◌++◌, ◌≡◌, refl, ◌⊎◌, inl, inr,
  Bool-cases, if◌then◌else◌, arith, Text, text_eq, text_eq_iff, length,
}
use iotacaddy.Telemetry.Defs.{
  Value, int, list, counting_set, nested, lookup, put, max_buffer_items, Telemetry, is_disabled,
  off, full, store_new, store, set_value, set, nest_value, set_nested, append_value, append_to,
  or_zero, bump, unique_value, append_unique, add_value, atomic_add, reset, Call, set_call,
  set_nested_call, append_call, append_unique_call, add_call, reset_call, run, run_all,
}

module _ {V : Type 0} where
  pub lookup-put :
      (k j : Text) (v : V) (m : List (Text × V))
      → lookup j (put k v m) ≡ (if text_eq k j then some v else lookup j m)
  unfolding lookup put
  lookup-put k j v [] = refl
  lookup-put k j v ((i, w) ∷ m) =
      ground (arith, text_eq_iff k j, text_eq_iff i k, text_eq_iff i j, lookup-put k j v m)

  lookup-put_self : (k : Text) (v : V) (m : List (Text × V)) → lookup k (put k v m) ≡ some v
  lookup-put_self k v m = ground (arith, lookup-put k k v m, text_eq_iff k k)

  length-put :
      (k : Text) (v : V) (m : List (Text × V))
      → length (put k v m) ≡ (elim (lookup k m) [ none ↦ suc (length m) | some _ ↦ length m ])
  unfolding lookup put
  length-put k v [] = refl
  length-put k v ((i, w) ∷ m) = ground (arith, length-put k v m)

-- The buffer has no more keys than items counted, and no more items than the limit `n`.
pub record IsBounded (n : ℕ) (t : Telemetry) : Type 0 where
  pub keys_counted : length t.buffer ≤ t.item_count
  pub in_limit : t.item_count ≤ n

length-put-le :
    {V : Type 0} (k : Text) (v : V) (m : List (Text × V)) → length (put k v m) ≤ suc (length m)
length-put-le {V} k v m = at_most (lookup k m) (length-put k v m)
  where
    at_most :
        (o : Option V)
        → length (put k v m) ≡ (elim o [ none ↦ suc (length m) | some _ ↦ length m ])
        → length (put k v m) ≤ suc (length m)
    at_most none e = omega arith
    at_most (some w) e = omega arith

length-put-some :
    {V : Type 0} (k : Text) (v w : V) (m : List (Text × V))
    → lookup k m ≡ some w
    → length (put k v m) ≡ length m
length-put-some k v w m e = rw e at (length-put k v m)

abbrev Bounded : Telemetry → Type 0
Bounded = IsBounded max_buffer_items

module _ (t : Telemetry) (h : Bounded t) (key : Text) where
  store_new-Bounded : (v : Value) → Bounded (store_new key v t)
  store_new-Bounded v = elim (Bool-cases (full t)) [
    | inl e ↦ rw e h
    | inr e ↦ rw e (record {
      keys_counted = omega (arith, length-put-le key v t.buffer, h.keys_counted);
      in_limit = ground (arith, h.in_limit);
    })
  ]

  store-Bounded : (v w : Value) → lookup key t.buffer ≡ some w → Bounded (store key v t)
  store-Bounded v w e = record {
    keys_counted = omega (arith, length-put-some key v w t.buffer e, h.keys_counted);
    in_limit = h.in_limit;
  }

  -- A call that is not off, on what the buffer holds at its key.
  on_value :
      (f : Option Value → Telemetry → Telemetry)
      → ((o : Option Value) → lookup key t.buffer ≡ o → Bounded (f o t))
      → Bounded (if off key t then t else f (lookup key t.buffer) t)
  on_value f b = elim (Bool-cases (off key t)) [
    | inl e ↦ rw e h
    | inr e ↦ rw e (b (lookup key t.buffer) refl)
  ]

  set-Bounded : (v : Value) → Bounded (set key v t)
  unfolding set
  set-Bounded v = on_value (set_value key v) go
    where
      go : (o : Option Value) → lookup key t.buffer ≡ o → Bounded (set_value key v o t)
      go none e = store_new-Bounded v
      go (some w) e = store-Bounded v w e

  set_nested-Bounded : (s v : Text) → Bounded (set_nested key s v t)
  unfolding set_nested
  set_nested-Bounded s v = on_value (nest_value key s v) go
    where
      sub :
          (m : List (Text × Text)) (o : Option Text)
          → lookup key t.buffer ≡ some (nested m)
          → Bounded (elim o [
            | none ↦ store_new key (nested (put s v m)) t
            | some _ ↦ store key (nested (put s v m)) t
          ])
      sub m none e = store_new-Bounded (nested (put s v m))
      sub m (some x) e = store-Bounded (nested (put s v m)) (nested m) e

      go : (o : Option Value) → lookup key t.buffer ≡ o → Bounded (nest_value key s v o t)
      go none e = store_new-Bounded (nested ((s, v) ∷ []))
      go (some (nested m)) e = sub m (lookup s m) e
      go (some _) e = h

  append_to-Bounded : (v : Text) → Bounded (append_to key v t)
  unfolding append_to
  append_to-Bounded v =
      on_value (λ o t'. if full t' then t' else append_value key v o t')
        λ o e. elim (Bool-cases (full t)) [ inl f ↦ rw f h | inr f ↦ rw f (go o e) ]
    where
      go : (o : Option Value) → lookup key t.buffer ≡ o → Bounded (append_value key v o t)
      go none e = store_new-Bounded (list (v ∷ []))
      go (some (list l)) e = store_new-Bounded (list (l ++ (v ∷ [])))
      go (some _) e = h

  append_unique-Bounded : (v : Text) → Bounded (append_unique key v t)
  unfolding append_unique
  append_unique-Bounded v = on_value (unique_value key v) go
    where
      go : (o : Option Value) → lookup key t.buffer ≡ o → Bounded (unique_value key v o t)
      go none e = store_new-Bounded (counting_set ((v, 1) ∷ []))
      go (some (counting_set m)) e = store-Bounded (counting_set (bump v m)) (counting_set m) e
      go (some _) e = h

  atomic_add-Bounded : (up down : ℕ) → Bounded (atomic_add key up down t)
  unfolding atomic_add
  atomic_add-Bounded up down = on_value (add_value key up down) go
    where
      go : (o : Option Value) → lookup key t.buffer ≡ o → Bounded (add_value key up down o t)
      go none e = store_new-Bounded (int up down)
      go (some (int a b)) e = store-Bounded (int (a + up) (b + down)) (int a b) e
      go (some _) e = h

run-Bounded : (c : Call) (t : Telemetry) → Bounded t → Bounded (run c t)
unfolding run reset
run-Bounded (set_call k v) t h = set-Bounded t h k v
run-Bounded (set_nested_call k s v) t h = set_nested-Bounded t h k s v
run-Bounded (append_call k v) t h = append_to-Bounded t h k v
run-Bounded (append_unique_call k v) t h = append_unique-Bounded t h k v
run-Bounded (add_call k up down) t h = atomic_add-Bounded t h k up down
run-Bounded reset_call t h = record { keys_counted = omega arith; in_limit = omega arith }

-- From a state in which the buffer has no more keys than items were counted, and the count is
-- within the limit, any sequence of calls leads to such a state again.
pub run_all-IsBounded :
    (cs : List Call) (t : Telemetry)
    → IsBounded max_buffer_items t
    → IsBounded max_buffer_items (run_all cs t)
unfolding run_all
run_all-IsBounded [] t h = h
run_all-IsBounded (c ∷ cs) t h = run_all-IsBounded cs (run c t) (run-Bounded c t h)

abbrev pub key_of : Call → Option Text
key_of (set_call k v) = some k
key_of (set_nested_call k s v) = some k
key_of (append_call k v) = some k
key_of (append_unique_call k v) = some k
key_of (add_call k up down) = some k
key_of reset_call = none

-- A collecting call is without effect while telemetry is not enabled, or where its key is disabled.
pub run-off :
    (c : Call) (k : Text) (t : Telemetry)
    → key_of c ≡ some k
    → (t.enabled ≡ false) ⊎ (is_disabled k t ≡ true)
    → run c t ≡ t
unfolding run set set_nested append_to append_unique atomic_add
run-off (set_call k v) j t e h = ground arith
run-off (set_nested_call k s v) j t e h = ground arith
run-off (append_call k v) j t e h = ground arith
run-off (append_unique_call k v) j t e h = ground arith
run-off (add_call k up down) j t e h = ground arith
run-off reset_call j t e h = absurd (cc)

-- Where a key holds a counting set, `AppendUnique` of a new value adds it to the set without
-- counting an item, and so however full the buffer is.
pub append_unique_uncounted :
    (key v : Text) (t : Telemetry) (m : List (Text × ℕ))
    → t.enabled ≡ true
    → is_disabled key t ≡ false
    → lookup key t.buffer ≡ some (counting_set m)
    → lookup v m ≡ none
    → (lookup key (append_unique key v t).buffer ≡ some (counting_set (bump v m)))
      × (length (bump v m) ≡ suc (length m))
      × ((append_unique key v t).item_count ≡ t.item_count)
unfolding append_unique
append_unique_uncounted key v t m e d l n =
    let stored : append_unique key v t ≡ store key (counting_set (bump v m)) t = ground arith in
    (
      rw stored (lookup-put_self key (counting_set (bump v m)) t.buffer),
      rw n (rw n at (length-put v (suc (or_zero (lookup v m))) m)),
      rw stored refl,
    )
