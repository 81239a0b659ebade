-- ===== src/Subscription/ErigonLinked.antt =====
-- The chain of the blocks that `processQueue` of internal/block_subscription/erigon_block_polling.ts
-- hands to the observer.
use chain_indexer_framework.Prelude.{
  ℕ, zero, suc, ◌≡◌, ◌⊎◌, refl, sym, ap, subst, ◌∙◌, inl, inr, true, false, String, Option, none,
  some, List, [], ◌∷◌, arith, if◌then◌else◌, Bool-cases,
}
use chain_indexer_framework.Prelude.Int.{ℤ, pos, ◌+ℤ◌, ◌-ℤ◌, leb_ℤ}
use chain_indexer_framework.Prelude.Text.{str_eq, str_eq_iff}
use chain_indexer_framework.Errors.Value.{JsValue}
use chain_indexer_framework.Queue.{enqueue}
use chain_indexer_framework.Store.{Outcome, done, failed}
use chain_indexer_framework.Subscription.State.{Block, WorkerResult, given}
use chain_indexer_framework.Subscription.Erigon.{
  Polls, nothing, latest_number, timer, room_for, Action, requests, emits, reports_reorg, reports,
  ErigonPoller, logged, queue_loop, process_queue, differs, break_off, on_block, take_result,
  settle, on_settled, is_current, while_head, is_full, process_unless_busy, request_block,
  for_rounds, rounds_to, for_loop, on_latest, wake, answer, subscribe, unsubscribe,
}

module _ (lower : String → String) where
  -- The hash that the next block must name: that of the block handed on last, unless a re-organised
  -- chain was reported since.
  abbrev pub expected : List Action → Option String
  expected [] = none
  expected (requests n ∷ log) = expected log
  expected (emits b ∷ log) = some (lower b.hash)
  expected (reports_reorg e ∷ log) = none
  expected (reports e ∷ log) = expected log

  -- An empty hash is not looked at.
  abbrev pub Fits : Option String → Block → Type 0
  Fits none block = Unit
  Fits (some h) block = (h ≡ "") ⊎ (h ≡ lower block.parent_hash)

  abbrev pub IsChain : List Action → Type 0
  IsChain [] = Unit
  IsChain (requests n ∷ log) = IsChain log
  IsChain (emits b ∷ log) = Fits (expected log) b × IsChain log
  IsChain (reports_reorg e ∷ log) = IsChain log
  IsChain (reports e ∷ log) = IsChain log

  pub record IsLinked (p : ErigonPoller) : Type 0 where
    pub chain : IsChain p.log
    pub saved : p.last_saved_block_hash ≡ expected p.log

  fitting :
      (h : Option String) (block : Block)
      → differs h (lower block.parent_hash) ≡ false
      → Fits h block
  fitting none block d = tt
  fitting (some h) block d = elim (Bool-cases (str_eq h "")) [
    | inl e ↦ inl ((str_eq_iff h "").0 e)
    | inr f ↦ inr ((str_eq_iff h (lower block.parent_hash)).0 (ground (arith, d, f)))
  ]

  -- A step that neither logs nor saves a hash.
  keeping :
      (p q : ErigonPoller)
      → q.log ≡ p.log
      → q.last_saved_block_hash ≡ p.last_saved_block_hash
      → IsLinked p
      → IsLinked q
  keeping p q l s h = record {
    chain = subst IsChain (sym l) h.chain;
    saved = s ∙ h.saved ∙ ap expected (sym l);
  }

  queue_loop-IsLinked : (p : ErigonPoller) → IsLinked p → IsLinked (queue_loop p)
  unfolding queue_loop
  queue_loop-IsLinked p = keeping p (queue_loop p) (ground arith) (ground arith)

  while_head-IsLinked : (p : ErigonPoller) → IsLinked p → IsLinked (while_head p)
  unfolding while_head
  while_head-IsLinked p = keeping p (while_head p) (ground arith) (ground arith)

  process_unless_busy-IsLinked : (p : ErigonPoller) → IsLinked p → IsLinked (process_unless_busy p)
  unfolding process_queue queue_loop
  process_unless_busy-IsLinked p = keeping p (process_unless_busy p) (ground arith) (ground arith)

  request_block-IsLinked : (n : ℤ) (p : ErigonPoller) → IsLinked p → IsLinked (request_block n p)
  unfolding request_block
  request_block-IsLinked n p h =
      let queued : ErigonPoller = logged (requests n) (record p { queue = enqueue n p.queue }) in
      let asked = process_unless_busy queued in
      let linked =
        process_unless_busy-IsLinked queued (record { chain = h.chain; saved = h.saved }) in
      keeping asked (if is_current asked then record asked { last_block_number = n } else asked)
        (ground arith) (ground arith) linked

  for_rounds-IsLinked :
      (k : ℕ) (number latest : ℤ) (p : ErigonPoller)
      → IsLinked p
      → IsLinked (for_rounds k number latest p)
  unfolding for_rounds
  for_rounds-IsLinked zero number latest p h = while_head-IsLinked p h
  for_rounds-IsLinked (suc k) number latest p h =
      let rest =
        for_rounds-IsLinked k (number +ℤ pos 1) latest (request_block number p)
          (request_block-IsLinked number p h) in
      elim (Bool-cases (is_current p)) [
        | inl c ↦ elim (Bool-cases (is_full p)) [
          | inl full ↦ rw (c, full) (record { chain = h.chain; saved = h.saved })
          | inr room ↦ rw (c, room) rest
        ]
        | inr gone ↦ rw gone (record { chain = h.chain; saved = h.saved })
      ]

  for_loop-IsLinked :
      (number latest : ℤ) (p : ErigonPoller) → IsLinked p → IsLinked (for_loop number latest p)
  unfolding for_loop
  for_loop-IsLinked number latest p h =
      for_rounds-IsLinked (rounds_to number latest) number latest p h

  module _ (trace : String) where
    on_latest-IsLinked :
        (o : Outcome ℤ) (p : ErigonPoller) → IsLinked p → IsLinked (on_latest trace o p)
    unfolding on_latest
    on_latest-IsLinked (failed e) p h = record { chain = h.chain; saved = h.saved }
    on_latest-IsLinked (done latest) p h = elim (Bool-cases (leb_ℤ latest p.last_block_number)) [
      | inl y ↦ rw y (record { chain = h.chain; saved = h.saved })
      | inr n ↦ rw n (for_loop-IsLinked (p.last_block_number +ℤ pos 1) latest p h)
    ]

    answer-IsLinked :
        (o : Outcome ℤ) (a : Polls) (p : ErigonPoller) → IsLinked p → IsLinked (answer trace o a p)
    answer-IsLinked o latest_number p h = on_latest-IsLinked o p h
    answer-IsLinked o nothing p h = h
    answer-IsLinked o (timer latest) p h = h
    answer-IsLinked o (room_for number latest) p h = h

    wake-IsLinked : (a : Polls) (p : ErigonPoller) → IsLinked p → IsLinked (wake a p)
    wake-IsLinked nothing p h = h
    wake-IsLinked latest_number p h = h
    wake-IsLinked (timer latest) p h = for_loop-IsLinked (p.last_block_number +ℤ pos 1) latest p h
    wake-IsLinked (room_for number latest) p h = elim (Bool-cases (is_full p)) [
      | inl full ↦ rw full h
      | inr room ↦ elim (Bool-cases (is_current p)) [
        | inl c ↦ rw (room, c) (for_loop-IsLinked number latest p h)
        | inr gone ↦ rw (room, gone) (while_head-IsLinked p h)
      ]
    ]

    on_block-IsLinked :
        (block : Block) (p : ErigonPoller) → IsLinked p → IsLinked (on_block trace lower block p)
    unfolding on_block break_off
    on_block-IsLinked block p h =
        elim (Bool-cases (differs p.last_saved_block_hash (lower block.parent_hash))) [
          | inl d ↦ rw d (record { chain = h.chain; saved = refl })
          | inr same ↦
              let next : ErigonPoller =
                logged (emits block)
                  (record p { last_saved_block_hash = some (lower block.hash) }) in
              let fits = fitting p.last_saved_block_hash block same in
              let linked : IsLinked next = record {
                chain = (subst (λ e. Fits e block) h.saved fits, h.chain);
                saved = refl;
              } in
              rw same (queue_loop-IsLinked next linked)
        ]

    take_result-IsLinked :
        (block : Block) (e : Option JsValue) (p : ErigonPoller)
        → IsLinked p
        → IsLinked (take_result trace lower block e p)
    take_result-IsLinked block none p h = on_block-IsLinked block p h
    take_result-IsLinked block (some e) p h = record { chain = h.chain; saved = h.saved }

    settle-IsLinked :
        (a : Option ℤ) (result : WorkerResult) (p : ErigonPoller)
        → IsLinked p
        → IsLinked (settle trace lower a result p)
    settle-IsLinked none result p h = h
    settle-IsLinked (some n) result p h = take_result-IsLinked result.block (given result.error) p h

    -- What happens to a poller.
    pub data Event : Type 0 where
      settles : WorkerResult → Event
      answers : Outcome ℤ → Event
      wakes leaves : Event
      subscribes : (now : ℕ) (start_block : ℤ) → Event

    abbrev pub on_event : Event → ErigonPoller → ErigonPoller
    on_event (settles result) p = on_settled trace lower result p
    on_event (answers o) p = answer trace o p.polls p
    on_event wakes p = wake p.polls p
    on_event leaves p = unsubscribe p
    on_event (subscribes now start_block) p = subscribe now start_block p

    abbrev pub run_erigon : List Event → ErigonPoller → ErigonPoller
    run_erigon [] p = p
    run_erigon (e ∷ es) p = run_erigon es (on_event e p)

    on_event-IsLinked : (e : Event) (p : ErigonPoller) → IsLinked p → IsLinked (on_event e p)
    unfolding on_settled unsubscribe subscribe
    on_event-IsLinked (settles result) p h = settle-IsLinked p.awaited result p h
    on_event-IsLinked (answers o) p h = answer-IsLinked o p.polls p h
    on_event-IsLinked wakes p h = wake-IsLinked p.polls p h
    on_event-IsLinked leaves p h = record { chain = h.chain; saved = h.saved }
    on_event-IsLinked (subscribes now start_block) p h =
        while_head-IsLinked
          (record p {
            polling_id = some now;
            has_observer = true;
            fatal_error = false;
            id = now;
            last_block_number = start_block -ℤ pos 1;
          })
          (record { chain = h.chain; saved = h.saved })

    -- From a state where this holds, such as a new one, whatever happens to the poller, calls of `subscribe` and failing workers included: each block that
    -- it hands to the observer names as its parent the block handed on before it, in lower case, unless a
    -- re-organised chain was reported between the two, or the hash before is empty.
    pub run_erigon-IsLinked :
        (es : List Event) (p : ErigonPoller) → IsLinked p → IsLinked (run_erigon es p)
    run_erigon-IsLinked [] p h = h
    run_erigon-IsLinked (e ∷ es) p h =
        run_erigon-IsLinked es (on_event e p) (on_event-IsLinked e p h)
