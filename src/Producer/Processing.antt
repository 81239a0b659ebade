-- ===== src/Producer/Processing.antt =====
-- `processQueue` and `addBlockToMongo` over any course of deliveries and completions.
use chain_indexer_framework.Prelude.{
  ℕ, zero, suc, ◌+◌, ◌≤◌, ◌<◌, ◌≡◌, ◌⊎◌, Bool, refl, sym, ap, subst, ◌∙◌, inl, inr, true, false,
  String, List, [], ◌∷◌, ◌++◌, arith, length, length-append, Bool-cases,
}
use chain_indexer_framework.Prelude.Int.{eq_ℤ, negsuc}
use chain_indexer_framework.Queue.{get_length}
use chain_indexer_framework.Queue.Refines.{
  Holds, enqueue-Holds, is_empty-Holds, get_length-Holds, new_queue-Holds,
}
use chain_indexer_framework.Store.{Outcome, done, failed, ProducedBlock, Collection}
use chain_indexer_framework.Producer.Picking.{take_next-Picks}
use chain_indexer_framework.Producer.Deliveries.{
  DeliveryReport, take_next, Pending, add_block_to_mongo, loop_head, process_queue, on_delivered,
  on_added, awaits, complete, resume_loop, idle, Event, delivered, added, on_event,
}

module _ (m : Collection) (trace : String) (depth : ℕ) where
  -- `mongoInsertInProcess` says whether a block is on its way, and there are never two.
  abbrev pub Flagged : Bool → List ProducedBlock → Type 0
  Flagged false blocks = blocks ≡ []
  Flagged true blocks = length blocks ≡ 1

  -- The flag is right, and the queue is in order.
  pub record IsSound (p : Pending m trace depth) : Type 0 where
    pub waiting : List ProducedBlock
    pub holds : Holds p.queue waiting
    pub flag : Flagged p.mongo_insert_in_process p.in_flight

  loop_head_stop :
      (p : Pending m trace depth)
      → Holds p.queue []
      → loop_head m trace depth p ≡ record p { mongo_insert_in_process = false }
  unfolding loop_head
  loop_head_stop p h = rw (is_empty-Holds [] h) refl

  loop_head_go :
      (p : Pending m trace depth) (x : ProducedBlock) (xs : List ProducedBlock)
      → Holds p.queue (x ∷ xs)
      → loop_head m trace depth p ≡ record p {
        queue = (take_next depth p.queue).1;
        in_flight = awaits m trace depth (take_next depth p.queue).0 p.in_flight;
      }
  unfolding loop_head
  loop_head_go p x xs h = ground (arith, is_empty-Holds (x ∷ xs) h)

  -- The head of the loop stops, or goes on with fewer blocks waiting.
  abbrev Advances : Pending m trace depth → Pending m trace depth → Type 0
  Advances p p' =
      IsSound p'
      × ((p'.mongo_insert_in_process ≡ false)
          ⊎ ((p'.mongo_insert_in_process ≡ true) × (get_length p'.queue + 1 ≤ get_length p.queue)))

  loop_head-Advances :
      (p : Pending m trace depth) (xs : List ProducedBlock)
      → Holds p.queue xs
      → p.mongo_insert_in_process ≡ true
      → p.in_flight ≡ []
      → Advances p (loop_head m trace depth p)
  loop_head-Advances p [] h on free =
      subst (Advances p) (sym (loop_head_stop p h))
        (record { waiting = []; holds = h; flag = free }, inl refl)
  loop_head-Advances p (x ∷ xs) h on free =
      let picks = take_next-Picks depth p.queue x xs h in
      let total = ap length picks.split ∙ length-append picks.skipped (picks.block ∷ picks.rest) in
      subst (Advances p) (sym (loop_head_go p x xs h)) (
        record {
          waiting = picks.rest;
          holds = picks.left;
          flag =
              subst (λ b. Flagged b (awaits m trace depth (take_next depth p.queue).0 p.in_flight))
                (sym on)
                (ap (λ o. length (awaits m trace depth o p.in_flight)) picks.is_picked
                  ∙ ap (λ blocks. suc (length blocks)) free);
        },
        inr (on, omega (arith, total, get_length-Holds h, get_length-Holds picks.left)),
      )

  resume_loop-Advances :
      (p : Pending m trace depth) (r : Outcome (Unit {0}) × m.State)
      → (waiting : List ProducedBlock) → Holds p.queue waiting
      → p.mongo_insert_in_process ≡ true
      → p.in_flight ≡ []
      → Advances p (resume_loop m trace depth p r)
  resume_loop-Advances p (done u, s) waiting h on free =
      loop_head-Advances (record p { store = s }) waiting h on free
  resume_loop-Advances p (failed e, s) waiting h on free =
      (record { waiting = waiting; holds = h; flag = free }, inl refl)

  none_running : (on : Bool) → Flagged on [] → on ≡ false
  none_running false h = refl
  none_running true h = absurd (omega (arith, h))

  one_running :
      (on : Bool) (b : ProducedBlock) (bs : List ProducedBlock)
      → Flagged on (b ∷ bs)
      → (on ≡ true) × (bs ≡ [])
  one_running false b bs h = absurd (ground (arith, h))
  one_running true b [] h = (refl, refl)
  one_running true b (x ∷ xs) h = absurd (omega (arith, h))

  complete-Advances :
      (p : Pending m trace depth) (bs : List ProducedBlock)
      → p.in_flight ≡ bs
      → IsSound p
      → Advances p (complete m trace depth p bs)
  complete-Advances p [] e i = (
    i,
    inl (
        none_running p.mongo_insert_in_process
          (subst (Flagged p.mongo_insert_in_process) e i.flag)),
  )
  complete-Advances p (b ∷ bs) e i =
      let (on, free) =
        one_running p.mongo_insert_in_process b bs
          (subst (Flagged p.mongo_insert_in_process) e i.flag) in
      resume_loop-Advances (record p { in_flight = bs })
        (add_block_to_mongo m trace depth b 4 p.store) i.waiting i.holds on free

  on_added-Advances :
      (p : Pending m trace depth) → IsSound p → Advances p (on_added m trace depth p)
  unfolding on_added
  on_added-Advances p i = complete-Advances p p.in_flight refl i

  on_delivered-IsSound :
      (report : DeliveryReport) (p : Pending m trace depth)
      → IsSound p
      → IsSound (on_delivered m trace depth report p).0
  unfolding on_delivered process_queue
  on_delivered-IsSound report p i = elim (Bool-cases (eq_ℤ report.partition (negsuc 0))) [
    | inl missing ↦ rw missing i
    | inr present ↦ elim (Bool-cases p.mongo_insert_in_process) [
      | inl on ↦
          rw (present, on)
            (record {
              waiting = i.waiting ++ report.opaque ∷ [];
              holds = enqueue-Holds report.opaque i.holds;
              flag = subst (λ b. Flagged b p.in_flight) on i.flag;
            })
      | inr off ↦
          rw (present, off)
            (loop_head-Advances _ (i.waiting ++ report.opaque ∷ [])
              (enqueue-Holds report.opaque i.holds) refl
              (subst (λ b. Flagged b p.in_flight) off i.flag)).0
    ]
  ]

  abbrev pub settle : ℕ → Pending m trace depth → Pending m trace depth
  settle zero p = p
  settle (suc n) p = settle n (on_added m trace depth p)

  on_event-IsSound :
      (e : Event m trace depth) (p : Pending m trace depth)
      → IsSound p
      → IsSound (on_event m trace depth e p)
  on_event-IsSound (delivered report) p i = on_delivered-IsSound report p i
  on_event-IsSound added p i = (on_added-Advances p i).0

  abbrev pub run : List (Event m trace depth) → Pending m trace depth → Pending m trace depth
  run [] p = p
  run (e ∷ es) p = run es (on_event m trace depth e p)

  run-IsSound :
      (es : List (Event m trace depth)) (p : Pending m trace depth) → IsSound p → IsSound (run es p)
  run-IsSound [] p i = i
  run-IsSound (e ∷ es) p i = run-IsSound es (on_event m trace depth e p) (on_event-IsSound e p i)

  idle-IsSound : (s : m.State) → IsSound (idle m trace depth s)
  idle-IsSound s = record { waiting = []; holds = new_queue-Holds; flag = refl }

  nothing_in_flight :
      (p : Pending m trace depth) → IsSound p → p.mongo_insert_in_process ≡ false → p.in_flight ≡ []
  nothing_in_flight p i off = subst (λ b. Flagged b p.in_flight) off i.flag

  stays_off : (n : ℕ) (p : Pending m trace depth) → p.in_flight ≡ [] → settle n p ≡ p
  unfolding on_added
  stays_off zero p e = refl
  stays_off (suc n) p e = ap (settle n) (ap (complete m trace depth p) e) ∙ stays_off n p e

  settles :
      (n : ℕ) (p : Pending m trace depth)
      → IsSound p
      → get_length p.queue < n
      → (settle n p).mongo_insert_in_process ≡ false
  settles zero p i h = absurd (omega arith)
  settles (suc n) p i h =
      let (sound, either) = on_added-Advances p i in
      elim either [
        | inl off ↦
            let next = on_added m trace depth p in
            ap (λ x. x.mongo_insert_in_process)
              (stays_off n next (nothing_in_flight next sound off))
            ∙ off
        | inr (on, less) ↦ settles n (on_added m trace depth p) sound (omega (arith, less))
      ]

  -- After any course of deliveries and completions there is at most one `addBlockToMongo` that is awaited,
  -- and `mongoInsertInProcess` is set if there is one, and not set if there is none; and however the
  -- writes end, the flag is off once as many have settled as blocks are waiting, and one more.
  pub processing_settles :
      (es : List (Event m trace depth)) (s : m.State)
      → let p = run es (idle m trace depth s) in
        Flagged p.mongo_insert_in_process p.in_flight
        × ((settle (get_length p.queue + 1) p).mongo_insert_in_process ≡ false)
  processing_settles es s =
      let p = run es (idle m trace depth s) in
      let i = run-IsSound es (idle m trace depth s) (idle-IsSound s) in
      (i.flag, settles (get_length p.queue + 1) p i (omega arith))
