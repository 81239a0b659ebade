-- ===== src/Producer/Picking.antt =====
-- Which of the delivered blocks reach MongoDB: the choice of `processQueue` between `shift` and
-- `shiftByN`, on the list of waiting blocks.
use chain_indexer_framework.Prelude.{
  ℕ, zero, suc, ◌+◌, ◌-◌, ◌≤◌, ◌<◌, ◌≡◌, ◌⊎◌, refl, sym, ap, subst, ◌∙◌, inl, inr, true, false,
  List, [], ◌∷◌, ◌++◌, Option, some, arith, ltb, length, get_elem?, take, drop, length-append,
  length-drop, Bool-cases, All,
}
use chain_indexer_framework.Prelude.Int.{ℤ, pos, ◌+ℤ◌, ◌-ℤ◌, ◌≤ℤ◌, int_laws, pos_part, neg_part}
use chain_indexer_framework.Queue.{Queue, get_length, shift_by_n}
use chain_indexer_framework.Queue.Refines.{
  Holds, get_length-Holds, shift-Holds, shift_by_n-Holds, shifted,
}
use chain_indexer_framework.Store.{ProducedBlock}
use chain_indexer_framework.Store.Window.{InWindow}
use chain_indexer_framework.Producer.Deliveries.{take_next}

-- The waiting blocks are those passed over, the one picked, and those left.
pub record Picks (depth : ℕ) (xs : List ProducedBlock) (picked : Option ProducedBlock)
    (q : Queue ProducedBlock) : Type 0 where
  pub skipped : List ProducedBlock
  pub block : ProducedBlock
  pub rest : List ProducedBlock
  pub split : xs ≡ skipped ++ block ∷ rest
  pub is_picked : picked ≡ some block
  pub left : Holds q rest
  pub short : length rest ≤ depth
  pub skips_old : (skipped ≡ []) ⊎ (length rest ≡ depth)

split_at {ℓ} :
    {A : Type ℓ} (n : ℕ) (xs : List A)
    → n < length xs
    → (x : A) × (get_elem? xs n ≡ some x) × (take n xs ++ x ∷ drop (suc n) xs ≡ xs)
split_at n [] h = absurd (omega arith)
split_at zero (x ∷ xs) h = (x, refl, refl)
split_at (suc n) (x ∷ xs) h =
    let (y, found, whole) = split_at n xs (omega arith) in (y, found, ap (◌∷◌ x) whole)

take_next_short :
    (depth : ℕ) (q : Queue ProducedBlock) (x : ProducedBlock) (xs : List ProducedBlock)
    → Holds q (x ∷ xs)
    → ltb depth (get_length q) ≡ false
    → Picks depth (x ∷ xs) (take_next depth q).0 (take_next depth q).1
unfolding take_next
take_next_short depth q x xs h short =
    let (result, left) = shift-Holds (x ∷ xs) h in
    rw short (record {
      skipped = [];
      block = x;
      rest = xs;
      split = refl;
      is_picked = result;
      left = left;
      short = ground (arith, short, get_length-Holds h);
      skips_old = inl refl;
    })

shifted_in :
    (n : ℕ) (xs : List ProducedBlock)
    → n < length xs
    → shifted (suc n) xs ≡ (get_elem? xs n, drop (suc n) xs)
shifted_in n xs h = ground arith

take_next_long :
    (depth n : ℕ) (q : Queue ProducedBlock) (xs : List ProducedBlock)
    → Holds q xs
    → length xs ≡ depth + suc n
    → Picks depth xs (take_next depth q).0 (take_next depth q).1
unfolding take_next
take_next_long depth n q xs h long =
    let (x, found, whole) = split_at n xs (omega arith) in
    let (result, left) = shift_by_n-Holds (suc n) xs h in
    let inside = shifted_in n xs (omega arith) in
    let test : ltb depth (get_length q) ≡ true = ground (arith, get_length-Holds h) in
    let count : get_length q - depth ≡ suc n = omega (arith, get_length-Holds h) in
    rw (test, count)
      (record {
        skipped = take n xs;
        block = x;
        rest = drop (suc n) xs;
        split = sym whole;
        is_picked = result ∙ ap (λ r. r.0) inside ∙ found;
        left = subst (λ r. Holds (shift_by_n (suc n) q).1 r.1) inside left;
        short = omega (arith, length-drop (suc n) xs);
        skips_old = inr (omega (arith, length-drop (suc n) xs));
      })

-- With blocks waiting, a round of `processQueue` picks one of them and leaves those behind it, at most
-- `maxReOrgDepth`; it passes blocks over only where exactly `maxReOrgDepth` are left behind the one
-- picked, and only blocks before that one.
pub take_next-Picks :
    (depth : ℕ) (q : Queue ProducedBlock) (x : ProducedBlock) (xs : List ProducedBlock)
    → Holds q (x ∷ xs)
    → Picks depth (x ∷ xs) (take_next depth q).0 (take_next depth q).1
take_next-Picks depth q x xs h = elim (Bool-cases (ltb depth (get_length q))) [
  | inl long ↦
      take_next_long depth (length xs - depth) q (x ∷ xs) h
        (ground (arith, long, get_length-Holds h))
  | inr short ↦ take_next_short depth q x xs h short
]

-- Blocks whose numbers follow one another.
abbrev pub IsConsecutive : ℤ → List ProducedBlock → Type 0
IsConsecutive n [] = Unit {0}
IsConsecutive n (x ∷ xs) = (x.number ≡ n) × IsConsecutive (n +ℤ pos 1) xs

-- The number of the last of a run of blocks.
abbrev pub last_number : ℤ → List ProducedBlock → ℤ
last_number n xs = n +ℤ pos (length xs) -ℤ pos 1

-- Blocks from `n` on, all `depth` or more below the last number, lie outside its window.
below_window :
    (depth : ℕ) (n last : ℤ) (skipped rest : List ProducedBlock)
    → IsConsecutive n (skipped ++ rest)
    → n +ℤ pos (length skipped) +ℤ pos depth ≤ℤ last
    → All (λ c. ¬ InWindow last depth c) skipped
below_window depth n last [] rest h k = tt
below_window depth n last (x ∷ xs) rest h k = (
  (λ w. omega (int_laws, ap pos_part h.0, ap neg_part h.0, w.0, k)),
  below_window depth (n +ℤ pos 1) last xs rest h.1 (omega (int_laws, k)),
)

-- Blocks from `n` to the last number lie in its window, if `n` does.
within_window :
    (depth : ℕ) (n last : ℤ) (xs : List ProducedBlock)
    → IsConsecutive n xs
    → last -ℤ pos depth ≤ℤ n
    → n +ℤ pos (length xs) ≤ℤ last +ℤ pos 1
    → All (InWindow last depth) xs
within_window depth n last [] h low high = tt
within_window depth n last (x ∷ xs) h low high = (
  (
    omega (int_laws, ap pos_part h.0, ap neg_part h.0, low),
    omega (int_laws, ap pos_part h.0, ap neg_part h.0, high),
  ),
  within_window depth (n +ℤ pos 1) last xs h.1 (omega (int_laws, low)) (omega (int_laws, high)),
)

IsConsecutive-append :
    (n : ℤ) (xs ys : List ProducedBlock)
    → IsConsecutive n (xs ++ ys)
    → IsConsecutive (n +ℤ pos (length xs)) ys
IsConsecutive-append n [] ys h = subst (λ k. IsConsecutive k ys) (omega int_laws) h
IsConsecutive-append n (x ∷ xs) ys h =
    subst (λ k. IsConsecutive k ys) (omega int_laws) (IsConsecutive-append (n +ℤ pos 1) xs ys h.1)

split_window :
    (depth : ℕ) (n : ℤ) (count : ℕ) (skipped : List ProducedBlock) (b : ProducedBlock)
    (rest : List ProducedBlock)
    → IsConsecutive n (skipped ++ b ∷ rest)
    → count ≡ length skipped + suc (length rest)
    → length rest ≤ depth
    → (skipped ≡ []) ⊎ (length rest ≡ depth)
    → All (λ c. ¬ InWindow (n +ℤ pos count -ℤ pos 1) depth c) skipped
      × All (InWindow (n +ℤ pos count -ℤ pos 1) depth) (b ∷ rest)
split_window depth n count skipped b rest run total short old = (
  (elim old [
    | inl none_skipped ↦
        subst (All (λ c. ¬ InWindow (n +ℤ pos count -ℤ pos 1) depth c)) (sym none_skipped) tt
    | inr full ↦ below_window depth n _ skipped (b ∷ rest) run (omega (int_laws, total, full))
  ]),
  within_window depth (n +ℤ pos (length skipped)) _ (b ∷ rest)
      (IsConsecutive-append n skipped (b ∷ rest) run) (omega (int_laws, total, short))
      (omega (int_laws, total)),
)

-- If the waiting blocks have consecutive numbers, a round of `processQueue` passes over exactly the
-- blocks that lie outside the window of `maxReOrgDepth` numbers below the last one, and that the
-- deletion after that one would remove; the block it picks and those it leaves lie in the window.
pub take_next-window :
    (depth : ℕ) (q : Queue ProducedBlock) (n : ℤ) (x : ProducedBlock) (xs : List ProducedBlock)
    → Holds q (x ∷ xs)
    → IsConsecutive n (x ∷ xs)
    → let last = last_number n (x ∷ xs) in
      (p : Picks depth (x ∷ xs) (take_next depth q).0 (take_next depth q).1) × (All
          (λ c. ¬ InWindow last depth c)
          p.skipped
        × All (InWindow last depth) (p.block ∷ p.rest))
take_next-window depth q n x xs h run =
    let p = take_next-Picks depth q x xs h in
    let run' : IsConsecutive n (p.skipped ++ p.block ∷ p.rest) =
      subst (IsConsecutive n) p.split run in
    let total = ap length p.split ∙ length-append p.skipped (p.block ∷ p.rest) in
    (
      p,
      split_window depth n (length (x ∷ xs)) p.skipped p.block p.rest run' total p.short
          p.skips_old,
    )
