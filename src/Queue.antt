-- ===== src/Queue.antt =====
-- internal/queue/queue.ts: the buffer class `Queue<T>` that the consumers, the subscriptions and the
-- block producer keep. `items` is the object keyed by number, as an association list in the order of
-- insertion; `null` and `undefined` results are `none`.
pub mod Refines
pub mod Tests
use chain_indexer_framework.Prelude.{
  ℕ, zero, suc, ◌+◌, ◌-◌, Bool, false, not, ◌&&◌, List, [], ◌∷◌, Option, none, some, ltb, leb, ◌==◌,
  if◌then◌else◌, keep_if,
}

pub record Queue {ℓ} (A : Type ℓ) : Type ℓ where
  pub items : List (ℕ × A)
  pub head : ℕ
  pub tail : ℕ

module _ {ℓ} {A : Type ℓ} where
  -- `items[key]`
  pub item_at : ℕ → List (ℕ × A) → Option A
  item_at key [] = none
  item_at key ((k, item) ∷ rest) = if k == key then some item else item_at key rest

  -- `items[key] = item`
  pub assign : ℕ → A → List (ℕ × A) → List (ℕ × A)
  assign key item [] = (key, item) ∷ []
  assign key item ((k, old) ∷ rest) =
      if k == key then (key, item) ∷ rest else (k, old) ∷ assign key item rest

  -- `delete items[key]`
  pub delete_key : ℕ → List (ℕ × A) → List (ℕ × A)
  delete_key key items = keep_if (λ e. not (e.0 == key)) items

  -- `new Queue()`
  unfoldable pub new_queue : Queue A
  new_queue = record { items = []; head = 0; tail = 0 }

  unfoldable pub enqueue : A → Queue A → Queue A
  unfolding assign
  enqueue item q = record q { items = assign q.tail item q.items; tail = q.tail + 1 }

  unfoldable pub get_length : Queue A → ℕ
  get_length q = q.tail - q.head

  unfoldable pub is_empty : Queue A → Bool
  unfolding get_length
  is_empty q = get_length q == 0

  unfoldable pub shift : Queue A → Option A × Queue A
  unfolding is_empty item_at delete_key
  shift q = if is_empty q then (none, q) else (
    item_at q.head q.items,
    record q { items = delete_key q.head q.items; head = q.head + 1 },
  )

  -- The loop over `Object.keys(this.items)`: every key up to the given one is deleted.
  pub delete_up_to : ℕ → List (ℕ × A) → List (ℕ × A)
  delete_up_to key items = keep_if (λ e. not (leb e.0 key)) items

  -- At position 0 the head goes to `head - 1`, which may be -1, and comes back.
  pub shift_zero : ℕ → Queue A → Option A × Queue A
  unfolding delete_up_to item_at
  shift_zero zero q = (none, q)
  shift_zero (suc before) q =
      (item_at before q.items, record q { items = delete_up_to before q.items })

  unfoldable pub shift_by_n : ℕ → Queue A → Option A × Queue A
  unfolding get_length item_at delete_up_to shift_zero
  shift_by_n zero q = shift_zero q.head q
  shift_by_n (suc n) q = if ltb (get_length q) (suc n) then (none, q) else (
    item_at (q.head + n) q.items,
    record q { items = delete_up_to (q.head + n) q.items; head = q.head + n + 1 },
  )

  unfoldable pub front : Queue A → Option A
  unfolding is_empty item_at
  front q = if is_empty q then none else item_at q.head q.items

  -- Returns the length after clearing, which is 0.
  unfoldable pub clear : Queue A → ℕ × Queue A
  clear q = (0, record { items = []; head = 0; tail = 0 })
