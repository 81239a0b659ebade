-- ===== src/Producer/Resume.antt =====
-- Where `getStartBlock` resumes, against the remote chain.
use chain_indexer_framework.Prelude.{
  ℕ, zero, suc, ◌≡◌, ◌≢◌, refl, sym, subst, ◌∙◌, inl, inr, false, String, Option, none, some, arith,
  Bool-cases,
}
use chain_indexer_framework.Prelude.Int.{
  ℤ, pos, ◌+ℤ◌, ◌-ℤ◌, ◌≤ℤ◌, ◌<ℤ◌, eq_ℤ, eq_ℤ_iff, int_laws, -ℤ_parts,
}
use chain_indexer_framework.Prelude.Text.{str_eq, str_eq_iff}
use chain_indexer_framework.Errors.Value.{JsValue}
use chain_indexer_framework.Store.{
  Outcome, done, ProducedBlock, Filter, every, number_is, Collection, Documented, get,
}
use chain_indexer_framework.Store.Window.{HasDistinctNumbers}
use chain_indexer_framework.Producer.StartBlock.{
  RemoteBlock, Start, start_at, start_loop, get_start_block,
}

sub_sub : (a : ℤ) (k : ℕ) → a -ℤ pos 1 -ℤ pos k ≡ a -ℤ pos (suc k)
sub_sub a k = omega int_laws

sub_add : (a : ℤ) → a +ℤ pos 1 -ℤ pos 1 ≡ a
sub_add a = omega int_laws

ne_zero : (n : ℤ) → pos 1 ≤ℤ n → eq_ℤ n (pos 0) ≡ false
ne_zero n h = ground arith

-- The remote chain, by the hash at each number, and the produced blocks. Every query is answered, and
-- the node returns the block that was asked for. Blocks 0 and 1 are not among the produced ones.
pub record Setting (m : Collection) (fetch : ℤ → Outcome RemoteBlock) (s : m.State) : Type 0 where
  pub remote : ℤ → String
  pub reached : (n : ℤ) → fetch n ≡ done (record { number = n; hash = remote n })
  pub answers : (f : Filter) → (o : Option ProducedBlock) × (m.find_highest f s ≡ done o)
  pub distinct : HasDistinctNumbers m s
  pub above_one : (c : ProducedBlock) → m.Stored s c → pos 2 ≤ℤ c.number

module _ (m : Collection) (doc : Documented m) (stringify : JsValue → String)
    (fetch : ℤ → Outcome RemoteBlock) (start_block : ℤ) (s : m.State) (w : Setting m fetch s) where
  -- A produced block at this number is on the remote chain.
  abbrev pub Agrees : ℤ → Type 0
  Agrees n = (c : ProducedBlock) × m.Stored s c × (c.number ≡ n) × (w.remote n ≡ c.hash)

  -- The produced blocks above the first number, up to the second, have left the remote chain.
  abbrev pub Rejected : ℤ → ℤ → Type 0
  Rejected low high =
      (c : ProducedBlock)
      → m.Stored s c
      → low <ℤ c.number
      → c.number ≤ℤ high
      → w.remote c.number ≢ c.hash

  -- Why the search that began at `n` with so many rounds came back with `j`.
  pub data Verdict (n : ℤ) (rounds : ℕ) (j : ℤ) : Type 0 where
    agreed : Agrees (j -ℤ pos 1) → Rejected (j -ℤ pos 1) n → Verdict n rounds j
    absent :
        ((c : ProducedBlock) → m.Stored s c → c.number ≢ j)
        → j ≤ℤ n
        → Rejected j n
        → Verdict n rounds j
    exhausted : j ≡ n -ℤ pos rounds → Rejected j n → Verdict n rounds j

  abbrev Resumes : Start → ℤ → ℕ → Type 0
  Resumes r n rounds = (j : ℤ) × (r ≡ start_at j) × Verdict n rounds j

  none_above : (n : ℤ) → Rejected n n
  none_above n c stored above below = absurd (omega (arith, above, below))

  -- Block `n` has left the chain, so that the verdict of the search from `n - 1` holds from `n`.
  widen :
      (b : ProducedBlock) (low : ℤ)
      → m.Stored s b
      → w.remote b.number ≢ b.hash
      → Rejected low (b.number -ℤ pos 1)
      → Rejected low b.number
  widen b low stored left rejected c held above below = elim (Bool-cases (eq_ℤ c.number b.number)) [
    | inl e ↦
        let same = w.distinct b c stored held (sym ((eq_ℤ_iff c.number b.number).0 e)) in
        subst (λ x. w.remote x.number ≢ x.hash) same left
    | inr e ↦ rejected c held above (ground (arith, -ℤ_parts b.number (pos 1)))
  ]

  widen-Verdict :
      (b : ProducedBlock) (rounds : ℕ) (j : ℤ)
      → m.Stored s b
      → w.remote b.number ≢ b.hash
      → Verdict (b.number -ℤ pos 1) rounds j
      → Verdict b.number (suc rounds) j
  widen-Verdict b rounds j stored left (agreed a r) = agreed a (widen b (j -ℤ pos 1) stored left r)
  widen-Verdict b rounds j stored left (absent a below r) =
      absent a (omega (arith, below, -ℤ_parts b.number (pos 1))) (widen b j stored left r)
  widen-Verdict b rounds j stored left (exhausted e r) =
      exhausted (e ∙ sub_sub b.number rounds) (widen b j stored left r)

  abbrev rounds_from : ℕ → ℤ → Start
  rounds_from rounds n = start_loop m stringify fetch start_block s rounds (some n)

  -- A number of 1 or more is looked up as such.
  round_absent :
      (rounds : ℕ) (n : ℤ)
      → pos 1 ≤ℤ n
      → m.find_highest (number_is n) s ≡ done none
      → rounds_from (suc rounds) n ≡ start_at n
  unfolding start_loop get
  round_absent rounds n h e = ground (arith, ne_zero n h, e)

  round_agrees :
      (rounds : ℕ) (n : ℤ) (b : ProducedBlock)
      → pos 1 ≤ℤ n
      → m.find_highest (number_is n) s ≡ done (some b)
      → w.remote b.number ≡ b.hash
      → rounds_from (suc rounds) n ≡ start_at (b.number +ℤ pos 1)
  unfolding start_loop get
  round_agrees rounds n b h e same =
      ground (arith, ne_zero n h, e, w.reached b.number, (str_eq_iff _ _).1 same)

  round_left :
      (rounds : ℕ) (n : ℤ) (b : ProducedBlock)
      → pos 1 ≤ℤ n
      → m.find_highest (number_is n) s ≡ done (some b)
      → str_eq (w.remote b.number) b.hash ≡ false
      → rounds_from (suc rounds) n ≡ rounds_from rounds (b.number -ℤ pos 1)
  unfolding start_loop get
  round_left rounds n b h e left = ground (arith, ne_zero n h, e, w.reached b.number, left)

  rounds_from-zero : (n : ℤ) → pos 1 ≤ℤ n → rounds_from zero n ≡ start_at n
  unfolding start_loop
  rounds_from-zero n h = ground (arith, ne_zero n h)

  -- The block that a query by number returns has that number.
  found_number :
      (n : ℤ) (b : ProducedBlock)
      → m.find_highest (number_is n) s ≡ done (some b)
      → m.Stored s b × (b.number ≡ n)
  found_number n b e =
      let (stored, matched) = doc.find_some (number_is n) s b e in
      (stored, (eq_ℤ_iff b.number n).0 matched)

  -- No block was found at a number that no block has.
  missing_number :
      (n : ℤ)
      → m.find_highest (number_is n) s ≡ done none
      → (c : ProducedBlock) → m.Stored s c
      → c.number ≢ n
  missing_number n e c stored same =
      absurd (cc ((eq_ℤ_iff c.number n).1 same, doc.find_none (number_is n) s e c stored))

  -- One round of the search, over what the query returned.
  answer-Resumes :
      (rounds : ℕ) (n : ℤ) (o : Option ProducedBlock)
      → pos 1 ≤ℤ n
      → m.find_highest (number_is n) s ≡ done o
      → ((k : ℤ) → pos 1 ≤ℤ k → Resumes (rounds_from rounds k) k rounds)
      → Resumes (rounds_from (suc rounds) n) n (suc rounds)
  answer-Resumes rounds n none h e rest =
      (n, round_absent rounds n h e, absent (missing_number n e) (omega arith) (none_above n))
  answer-Resumes rounds n (some b) h e rest =
      let (stored, at_n) = found_number n b e in
      elim (Bool-cases (str_eq (w.remote b.number) b.hash)) [
        | inl same ↦
            let back = sub_add b.number in
            (
              b.number +ℤ pos 1,
              round_agrees rounds n b h e ((str_eq_iff _ _).0 same),
              agreed
                  (
                    b,
                    stored,
                    sym back,
                    subst (λ x. w.remote x ≡ b.hash) (sym back) ((str_eq_iff _ _).0 same),
                  )
                  (subst (λ x. Rejected x n) (sym back)
                    (subst (Rejected b.number) at_n (none_above b.number))),
            )
        | inr left ↦
            let (j, result, verdict) =
              rest (b.number -ℤ pos 1)
                (omega (arith, w.above_one b stored, -ℤ_parts b.number (pos 1))) in
            let gone : w.remote b.number ≢ b.hash =
              λ same. cc (left, (str_eq_iff (w.remote b.number) b.hash).1 same) in
            (
              j,
              round_left rounds n b h e left ∙ result,
              subst (λ x. Verdict x (suc rounds) j) at_n
                  (widen-Verdict b rounds j stored gone verdict),
            )
      ]

  loop-Resumes : (rounds : ℕ) (n : ℤ) → pos 1 ≤ℤ n → Resumes (rounds_from rounds n) n rounds
  loop-Resumes zero n h = (n, rounds_from-zero n h, exhausted (omega int_laws) (none_above n))
  loop-Resumes (suc rounds) n h =
      let (o, e) = w.answers (number_is n) in answer-Resumes rounds n o h e (loop-Resumes rounds)

  abbrev started : ℕ → Start
  started depth = get_start_block m stringify fetch start_block s depth

  start_of_latest :
      (depth : ℕ) (head : ProducedBlock)
      → get m none s ≡ done (some head)
      → started depth ≡ rounds_from depth head.number
  unfolding get_start_block
  start_of_latest depth head e = rw e

  -- In such a `Setting`, in which MongoDB answers every query, the node returns the block that it is asked
  -- for, and no produced block has number 0 or 1 or the number of another one, and with produced blocks in
  -- the collection, the search returns a block number, and the verdict on it,
  -- counted from the highest produced block, to which the numbers of the others are at most equal:
  -- (agreed) the produced block before it is on the remote chain, and no produced block from it on is;
  -- (absent) no produced block has this number, which is not above the highest, and none above is on the
  -- remote chain; or (exhausted)
  -- it lies `maxReOrgDepth` below the highest, and no produced block above it is on the remote chain.
  pub get_start_block-Verdict :
      (depth : ℕ) (head : ProducedBlock)
      → get m none s ≡ done (some head)
      → ((j : ℤ) × (started depth ≡ start_at j) × Verdict head.number depth j)
        × ((c : ProducedBlock) → m.Stored s c → c.number ≤ℤ head.number)
  unfolding get
  get_start_block-Verdict depth head e =
      let stored = (doc.find_some every s head e).0 in
      let (j, result, verdict) =
        loop-Resumes depth head.number (omega (arith, w.above_one head stored)) in
      (
        (j, start_of_latest depth head e ∙ result, verdict),
        λ c held. doc.find_greatest every s head e c held refl,
      )

  -- Without produced blocks it returns the configured start block.
  get_start_block_empty :
      (depth : ℕ) → get m none s ≡ done none → started depth ≡ start_at start_block
  unfolding get_start_block
  get_start_block_empty zero e = rw e
  get_start_block_empty (suc depth) e = ground (arith, e)

-- Once the search has come down to block number 0, where `blockNumber` is falsy, it does not look at
-- block 0: it looks at the highest produced block once more, and if that has left the remote chain it
-- goes on from the block below the highest, down the numbers that it has rejected before.
start_loop_zero :
    (m : Collection) (stringify : JsValue → String) (fetch : ℤ → Outcome RemoteBlock)
    (start_block : ℤ) (s : m.State) (rounds : ℕ) (head : ProducedBlock) (r : RemoteBlock)
    → get m none s ≡ done (some head)
    → fetch head.number ≡ done r
    → r.number ≡ head.number
    → r.hash ≢ head.hash
    → start_loop m stringify fetch start_block s (suc rounds) (some (pos 0))
      ≡ start_loop m stringify fetch start_block s rounds (some (head.number -ℤ pos 1))
unfolding start_loop get
start_loop_zero m stringify fetch start_block s rounds head r e reached same left =
    ground (arith, e, reached, same, str_eq_iff r.hash head.hash)
