-- ===== src/Queue/Refines.antt =====
-- The queue class against the plain list of its items, oldest first.
use chain_indexer_framework.Prelude.{
  ℕ, zero, suc, ◌+◌, ◌<◌, ◌≡◌, refl, ap, ap₂, ◌∙◌, sym, List, [], ◌∷◌, ◌++◌, Option, none, arith,
  ltb, ◌==◌, if◌then◌else◌, length, get_elem?, drop, length-append, length-drop,
}
use chain_indexer_framework.Queue.{
  Queue, item_at, assign, delete_key, delete_up_to, new_queue, enqueue, get_length, is_empty, shift,
  shift_zero, shift_by_n, front, clear,
}

module _ {ℓ} {A : Type ℓ} where
  -- Items under consecutive keys.
  abbrev pub keyed_from : ℕ → List A → List (ℕ × A)
  keyed_from k [] = []
  keyed_from k (x ∷ xs) = (k, x) ∷ keyed_from (suc k) xs

  -- The queue holds exactly the given items, under the keys from its head to its tail.
  pub record Holds (q : Queue A) (xs : List A) : Type ℓ where
    pub keyed : q.items ≡ keyed_from q.head xs
    pub counted : q.tail ≡ q.head + length xs

  item_at-keyed_from : (k n : ℕ) (xs : List A) → item_at (k + n) (keyed_from k xs) ≡ get_elem? xs n
  unfolding item_at
  item_at-keyed_from k n [] = refl
  item_at-keyed_from k zero (x ∷ xs) = ground arith
  item_at-keyed_from k (suc n) (x ∷ xs) = ground (arith, item_at-keyed_from (suc k) n xs)

  assign-keyed_from :
      (k n : ℕ) (x : A) (xs : List A)
      → n ≡ k + length xs
      → assign n x (keyed_from k xs) ≡ keyed_from k (xs ++ x ∷ [])
  unfolding assign
  assign-keyed_from k n x [] h = ground arith
  assign-keyed_from k n x (y ∷ ys) h = ground (arith, assign-keyed_from (suc k) n x ys)

  delete_up_to-above :
      (k n : ℕ) (xs : List A) → n < k → delete_up_to n (keyed_from k xs) ≡ keyed_from k xs
  unfolding delete_up_to
  delete_up_to-above k n [] h = refl
  delete_up_to-above k n (x ∷ xs) h = ground (arith, delete_up_to-above (suc k) n xs)

  -- Deleting up to the key of item `n` keeps exactly the items behind it.
  delete_up_to-keyed_from :
      (k n : ℕ) (xs : List A)
      → n < length xs
      → delete_up_to (k + n) (keyed_from k xs) ≡ keyed_from (k + n + 1) (drop (suc n) xs)
  unfolding delete_up_to
  delete_up_to-keyed_from k n [] h = absurd (omega arith)
  delete_up_to-keyed_from k zero (x ∷ xs) h = ground (arith, delete_up_to-above (suc k) (k + 0) xs)
  delete_up_to-keyed_from k (suc n) (x ∷ xs) h =
      ground (arith, delete_up_to-keyed_from (suc k) n xs)

  delete_key-above :
      (k n : ℕ) (xs : List A) → n < k → delete_key n (keyed_from k xs) ≡ keyed_from k xs
  unfolding delete_key
  delete_key-above k n [] h = refl
  delete_key-above k n (x ∷ xs) h = ground (arith, delete_key-above (suc k) n xs)

  delete_up_to-below :
      (k n : ℕ) (xs : List A) → k ≡ suc n → delete_up_to n (keyed_from k xs) ≡ keyed_from k xs
  delete_up_to-below k n xs h = delete_up_to-above k n xs (omega arith)

  item_at-below : (k n : ℕ) (xs : List A) → n < k → item_at n (keyed_from k xs) ≡ none
  unfolding item_at
  item_at-below k n [] h = refl
  item_at-below k n (x ∷ xs) h = ground (arith, item_at-below (suc k) n xs)

  pub new_queue-Holds : Holds new_queue []
  unfolding new_queue
  new_queue-Holds = record { keyed = refl; counted = omega arith }

  pub get_length-Holds : {q : Queue A} {xs : List A} → Holds q xs → get_length q ≡ length xs
  unfolding get_length
  get_length-Holds h = omega (arith, h.counted)

  pub enqueue-Holds :
      (item : A) {q : Queue A} {xs : List A} → Holds q xs → Holds (enqueue item q) (xs ++ item ∷ [])
  unfolding enqueue
  enqueue-Holds item {q} {xs} h = record {
    keyed = ground (arith, h.keyed, h.counted, assign-keyed_from q.head q.tail item xs);
    counted = omega (arith, h.counted, length-append xs (item ∷ []));
  }

  -- What the operations return and leave, on the list of items.
  abbrev pub head_of : List A → Option A
  head_of xs = get_elem? xs 0

  pub shift-Holds :
      {q : Queue A} (xs : List A)
      → Holds q xs
      → ((shift q).0 ≡ head_of xs) × Holds (shift q).1 (drop 1 xs)
  unfolding shift
  shift-Holds [] h = (ground (arith, h.counted), ground (arith, h.keyed, h.counted))
  shift-Holds {q} (x ∷ xs) h = (
    ground (arith, h.keyed, h.counted),
    record {
      keyed = ground (arith, h.keyed, h.counted, delete_key-above (suc q.head) q.head xs);
      counted = ground (arith, h.counted);
    },
  )

  pub front-Holds : {q : Queue A} (xs : List A) → Holds q xs → front q ≡ head_of xs
  unfolding front
  front-Holds [] h = ground (arith, h.counted)
  front-Holds (x ∷ xs) h = ground (arith, h.keyed, h.counted)

  pub is_empty-Holds : {q : Queue A} (xs : List A) → Holds q xs → is_empty q ≡ (length xs == 0)
  unfolding is_empty
  is_empty-Holds xs h = ground (arith, h.counted)

  -- `position - 1` of the list, and what stands behind it.
  abbrev pub shifted : ℕ → List A → Option A × List A
  shifted zero xs = (none, xs)
  shifted (suc n) xs =
      if ltb (length xs) (suc n) then (none, xs) else (get_elem? xs n, drop (suc n) xs)

  shift_zero-Holds :
      (k : ℕ) {q : Queue A} (xs : List A)
      → q.head ≡ k
      → Holds q xs
      → ((shift_zero k q).0 ≡ none) × Holds (shift_zero k q).1 xs
  unfolding shift_zero
  shift_zero-Holds zero xs e h = (refl, h)
  shift_zero-Holds (suc k) {q} xs e h = (
    rw (h.keyed, item_at-below q.head k xs (omega arith)) refl,
    record { keyed = rw h.keyed (delete_up_to-below q.head k xs e); counted = h.counted },
  )

  pub shift_by_n-Holds :
      (position : ℕ) {q : Queue A} (xs : List A)
      → Holds q xs
      → ((shift_by_n position q).0 ≡ (shifted position xs).0)
        × Holds (shift_by_n position q).1 (shifted position xs).1
  unfolding shift_by_n
  shift_by_n-Holds zero {q} xs h = shift_zero-Holds q.head xs refl h
  shift_by_n-Holds (suc n) {q} xs h = (
    ground (arith, h.keyed, h.counted, item_at-keyed_from q.head n xs),
    record {
      keyed = ground (arith, h.keyed, h.counted, delete_up_to-keyed_from q.head n xs);
      counted = ground (arith, h.counted, length-drop (suc n) xs);
    },
  )

  pub clear-Holds : (q : Queue A) → Holds (clear q).1 []
  unfolding clear
  clear-Holds q = record { keyed = refl; counted = omega arith }

-- The calls that a client makes, on the class and on the list.
pub data Call {ℓ} (A : Type ℓ) : Type ℓ where
  enqueues : A → Call A
  shifts fronts clears : Call A
  shifts_by : ℕ → Call A

module _ {ℓ} {A : Type ℓ} where
  abbrev pub on_queue : Call A → Queue A → Option A × Queue A
  on_queue (enqueues item) q = (none, enqueue item q)
  on_queue shifts q = shift q
  on_queue fronts q = (front q, q)
  on_queue clears q = (none, (clear q).1)
  on_queue (shifts_by n) q = shift_by_n n q

  abbrev pub on_list : Call A → List A → Option A × List A
  on_list (enqueues item) xs = (none, xs ++ item ∷ [])
  on_list shifts xs = (head_of xs, drop 1 xs)
  on_list fronts xs = (head_of xs, xs)
  on_list clears xs = (none, [])
  on_list (shifts_by n) xs = shifted n xs

  -- The results of a sequence of calls, and the state after it.
  abbrev pub run_queue : List (Call A) → Queue A → List (Option A) × Queue A
  run_queue [] q = ([], q)
  run_queue (c ∷ cs) q =
      let (result, next) = on_queue c q in
      let (results, last) = run_queue cs next in (result ∷ results, last)

  abbrev pub run_list : List (Call A) → List A → List (Option A) × List A
  run_list [] xs = ([], xs)
  run_list (c ∷ cs) xs =
      let (result, next) = on_list c xs in
      let (results, last) = run_list cs next in (result ∷ results, last)

  call-Holds :
      (c : Call A) {q : Queue A} (xs : List A)
      → Holds q xs
      → ((on_queue c q).0 ≡ (on_list c xs).0) × Holds (on_queue c q).1 (on_list c xs).1
  call-Holds (enqueues item) xs h = (refl, enqueue-Holds item h)
  call-Holds shifts xs h = shift-Holds xs h
  call-Holds fronts xs h = (front-Holds xs h, h)
  call-Holds clears {q} xs h = (refl, clear-Holds q)
  call-Holds (shifts_by n) xs h = shift_by_n-Holds n xs h

  run-Holds :
      (cs : List (Call A)) {q : Queue A} (xs : List A)
      → Holds q xs
      → ((run_queue cs q).0 ≡ (run_list cs xs).0) × Holds (run_queue cs q).1 (run_list cs xs).1
  run-Holds [] xs h = (refl, h)
  run-Holds (c ∷ cs) xs h =
      let (same, next) = call-Holds c xs h in
      let (results, last) = run-Holds cs (on_list c xs).1 next in (ap₂ ◌∷◌ same results, last)

  -- Any sequence of calls of `enqueue`, `shift`, `shiftByN` (at a position of 0 or more), `front` and
  -- `clear` on a new queue returns what the same calls on a plain list return, oldest item first, and
  -- the object then holds exactly the items left in that list, under the keys from head to tail.
  pub run-refines_list :
      (cs : List (Call A))
      → ((run_queue cs new_queue).0 ≡ (run_list cs []).0)
        × Holds (run_queue cs new_queue).1 (run_list cs []).1
  run-refines_list cs = run-Holds cs [] new_queue-Holds

  length-keyed_from : (k : ℕ) (xs : List A) → length (keyed_from k xs) ≡ length xs
  length-keyed_from k [] = refl
  length-keyed_from k (x ∷ xs) = ap suc (length-keyed_from (suc k) xs)

  -- After any sequence of calls on a new queue the object has as many entries as `getLength` says:
  -- no call leaves the entry of a removed item behind.
  run_queue-no_leak :
      (cs : List (Call A))
      → length (run_queue cs new_queue).1.items ≡ get_length (run_queue cs new_queue).1
  run_queue-no_leak cs =
      let held = (run-refines_list cs).1 in
      rw held.keyed (length-keyed_from _ (run_list cs []).1) ∙ sym (get_length-Holds held)
