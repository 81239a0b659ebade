-- ===== src/Subscription/Requests.antt =====
-- Which blocks the listener of internal/block_subscription/abstract_block_subscription.ts requests.
use chain_indexer_framework.Prelude.{
  ℕ, zero, suc, ◌+◌, ◌≡◌, ◌⊎◌, refl, sym, ap, subst, ◌∙◌, inl, inr, Bool, true, false, String,
  Option, none, some, List, [], ◌∷◌, ◌++◌, append-nil, append_assoc, arith, Bool-cases, ltb, dec_le,
  ◌<◌, ◌≤◌, ◌||◌,
}
use chain_indexer_framework.Prelude.Int.{
  ℤ, pos, negsuc, ◌+ℤ◌, ◌-ℤ◌, pos_part, neg_part, ltb_ℤ, int_laws,
}
use chain_indexer_framework.Prelude.Text.{str_eq}
use chain_indexer_framework.Errors.Value.{JsValue}
use chain_indexer_framework.Subscription.State.{
  Block, LogNumber, finite, not_finite, not_a_number, LogEvent, WorkerResult, given, Subscription,
}
use chain_indexer_framework.Subscription.Live.{
  request, has_missed_blocks, enqueue_rounds, enqueue_missed_blocks, queue_loop, process_queue,
  fail_block, on_block, take_result, on_settled, settle, hashed_log, good_log, accept_log, on_log,
  with_missed, process_unless_busy, on_subscription_error, bad_hash,
}
use chain_indexer_framework.Subscription.Walks.{requested, Walks, Requests, Requests-trans, silent}

queue_loop-Requests : (s : Subscription) → Requests s (queue_loop s)
unfolding queue_loop
queue_loop-Requests s = silent (ground arith) (ground arith)

fail_block-Requests :
    (trace : String) (e : JsValue) (s : Subscription) → Requests s (fail_block trace e s)
unfolding fail_block
fail_block-Requests trace e s = silent refl refl

on_block-Requests :
    (trace : String) (block : Block) (s : Subscription) → Requests s (on_block trace block s)
unfolding on_block fail_block queue_loop
on_block-Requests trace block s = silent (ground arith) (ground arith)

take_result-Requests :
    (trace : String) (block : Block) (e : Option JsValue) (s : Subscription)
    → Requests s (take_result trace block e s)
take_result-Requests trace block (some e) s = fail_block-Requests trace e s
take_result-Requests trace block none s = on_block-Requests trace block s

settle-Requests :
    (trace : String) (a : Option ℤ) (result : WorkerResult) (s : Subscription)
    → Requests s (settle trace a result s)
settle-Requests trace none result s = silent refl refl
settle-Requests trace (some n) result s =
    take_result-Requests trace result.block (given result.error) s

process_unless_busy-Requests : (s : Subscription) → Requests s (process_unless_busy s)
unfolding process_queue queue_loop
process_unless_busy-Requests s = silent (ground arith) (ground arith)

-- The numbers of the missed blocks.
abbrev missed : ℕ → ℤ → ℕ → List ℤ
missed zero n i = []
missed (suc k) n i = (n +ℤ pos i) ∷ missed k n (suc i)

enqueue_rounds_log :
    (k i : ℕ) (s : Subscription)
    → requested (enqueue_rounds k i s).log
      ≡ requested s.log ++ missed k s.last_received_block_number i
unfolding enqueue_rounds
enqueue_rounds_log zero i s = sym (append-nil _)
enqueue_rounds_log (suc k) i s =
    enqueue_rounds_log k (suc i) (request (s.last_received_block_number +ℤ pos i) s)
    ∙ append_assoc (requested s.log) _ _

less_of : (a b : ℕ) → ltb a b ≡ true → a < b
less_of a b h = ground arith

not_less_of : (a b : ℕ) → ltb a b ≡ false → b ≤ a
not_less_of a b h = ground arith

one_sided : (a : ℤ) → (pos_part a ≡ 0) ⊎ (neg_part a ≡ 0)
one_sided (pos n) = inr refl
one_sided (negsuc n) = inl refl

right_false : (a b : Bool) → (a || b) ≡ false → b ≡ false
right_false a b h = ground arith

missed-Walks :
    (k i : ℕ) (n current : ℤ)
    → pos_part current + neg_part n ≡ pos_part n + (i + k) + 1 + neg_part current
    → Walks (n +ℤ pos i) (missed k n (suc i) ++ current ∷ []) current
missed-Walks zero i n current e = (inl (omega (int_laws, e)), refl)
missed-Walks (suc k) i n current e =
    (inl (omega int_laws), missed-Walks k (suc i) n current (omega (arith, e)))

plus_zero : (n : ℤ) → n +ℤ pos 0 ≡ n
plus_zero n = omega int_laws

-- The numbers up to that of the log.
abbrev Missed : ℤ → Subscription → Subscription → Type 0
Missed n s s' =
    (ns : List ℤ) × (requested s'.log ≡ requested s.log ++ ns)
    × Walks s.last_received_block_number (ns ++ n ∷ []) n

enqueue_missed_blocks-Missed :
    (n : ℤ) (s : Subscription)
    → has_missed_blocks n s ≡ true
    → Missed n s (enqueue_missed_blocks n s)
unfolding has_missed_blocks enqueue_missed_blocks
enqueue_missed_blocks-Missed n s m =
    let last = s.last_received_block_number in
    let k = pos_part (n -ℤ last -ℤ pos 1) in
    (
      missed k last 1,
      enqueue_rounds_log k 1 s,
      subst (λ i. Walks i (missed k last 1 ++ n ∷ []) n) (plus_zero last)
          (missed-Walks k 0 last n
            (omega (int_laws, less_of _ _ m, one_sided (n -ℤ last -ℤ pos 1)))),
    )

next_or_same :
    (n last : ℤ)
    → ltb_ℤ n last ≡ false
    → ltb_ℤ (pos 1) (n -ℤ last) ≡ false
    → (n ≡ last +ℤ pos 1) ⊎ (n ≡ last)
next_or_same n last low near =
    elim (dec_le (suc (pos_part last + neg_part n)) (pos_part n + neg_part last)) [
      | yes up ↦ inl (omega (int_laws, not_less_of _ _ near, up))
      | no same ↦ inr (omega (int_laws, not_less_of _ _ low, same))
    ]

no_gap-Missed :
    (n : ℤ) (s : Subscription)
    → ltb_ℤ n s.last_received_block_number ≡ false
    → has_missed_blocks n s ≡ false
    → Missed n s s
unfolding has_missed_blocks
no_gap-Missed n s low m =
    ([], sym (append-nil _), (next_or_same n s.last_received_block_number low m, refl))

with_missed-Missed :
    (n : ℤ) (s : Subscription)
    → ltb_ℤ n s.last_received_block_number ≡ false
    → Missed n s (with_missed n s)
with_missed-Missed n s low = elim (Bool-cases (has_missed_blocks n s)) [
  | inl m ↦ rw m (enqueue_missed_blocks-Missed n s m)
  | inr m ↦ rw m (no_gap-Missed n s low m)
]

accept_log-Requests :
    (h : String) (n : ℤ) (s : Subscription)
    → ltb_ℤ n s.last_received_block_number ≡ false
    → Requests s (accept_log h n s)
unfolding accept_log
accept_log-Requests h n s low =
    let (ns, r, w) = with_missed-Missed n s low in
    let received : Subscription =
      request n
        (record (with_missed n s) { last_block_hash = h; last_received_block_number = n }) in
    let first : Requests s received = record {
      numbers = ns ++ n ∷ [];
      recorded = ap (λ qs. qs ++ n ∷ []) r ∙ append_assoc (requested s.log) ns (n ∷ []);
      walk = w;
    } in
    Requests-trans first (process_unless_busy-Requests received)

good_log-Requests : (h : String) (n : ℤ) (s : Subscription) → Requests s (good_log h n s)
good_log-Requests h n s = elim (Bool-cases (bad_hash h || ltb_ℤ n s.last_received_block_number)) [
  | inl bad ↦ rw bad (silent refl refl)
  | inr good ↦ elim (Bool-cases (str_eq s.last_block_hash h)) [
    | inl same ↦ rw (good, same) (silent refl refl)
    | inr new ↦ rw (good, new) (accept_log-Requests h n s (right_false _ _ good))
  ]
]

hashed_log-Requests :
    (h : Option String) (number : LogNumber) (s : Subscription) → Requests s (hashed_log h number s)
hashed_log-Requests none number s = silent refl refl
hashed_log-Requests (some h) (finite n) s = good_log-Requests h n s
hashed_log-Requests (some h) not_finite s = silent refl refl
hashed_log-Requests (some h) not_a_number s = silent refl refl

-- What happens to a live subscription.
pub data Event : Type 0 where
  logs : LogEvent → Event
  settles : WorkerResult → Event
  errs : JsValue → Event

abbrev pub on_event : (trace : String) → Event → Subscription → Subscription
on_event trace (logs event) s = on_log event s
on_event trace (settles result) s = on_settled trace result s
on_event trace (errs e) s = on_subscription_error trace e s

abbrev pub run : (trace : String) → List Event → Subscription → Subscription
run trace [] s = s
run trace (e ∷ es) s = run trace es (on_event trace e s)

on_event-Requests :
    (trace : String) (e : Event) (s : Subscription) → Requests s (on_event trace e s)
unfolding on_log on_settled on_subscription_error
on_event-Requests trace (logs event) s = hashed_log-Requests event.block_hash event.block_number s
on_event-Requests trace (settles result) s = settle-Requests trace s.awaited result s
on_event-Requests trace (errs e) s = silent refl refl

-- Whatever logs come, malformed ones, repeated ones and those of a re-organised chain among them, and
-- whatever the workers answer, the blocks that the listener requests go from `lastReceivedBlockNumber`
-- to its new value in steps to the next number or to the same number again: none is left out, and the
-- number never goes back.
pub run-Requests :
    (trace : String) (es : List Event) (s : Subscription) → Requests s (run trace es s)
run-Requests trace [] s = silent refl refl
run-Requests trace (e ∷ es) s =
    Requests-trans (on_event-Requests trace e s) (run-Requests trace es (on_event trace e s))
