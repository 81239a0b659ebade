-- ===== src/Consumer/Serving.antt =====
-- The loop of the consumer in internal/kafka/consumer/abstract_consumer.ts serves the accepted
-- messages in their order: its head, and the acceptance of a message.
use chain_indexer_framework.Prelude.{
  ◌≡◌, refl, sym, ap, subst, ◌∙◌, inl, inr, Bool, true, false, List, [], ◌∷◌, ◌++◌, map, append-nil,
  append_assoc, none, some, arith, Bool-cases,
}
use chain_indexer_framework.Queue.{enqueue}
use chain_indexer_framework.Queue.Refines.{Holds, enqueue-Holds, front-Holds, is_empty-Holds}
use chain_indexer_framework.Consumer.State.{Message, Element, Consumer}
use chain_indexer_framework.Consumer.Steps.{queue_loop, await_front, process_queue, new_element}
use chain_indexer_framework.Consumer.Receiving.{accept_message, called_at_once}
use chain_indexer_framework.Consumer.Frame.{
  committed, Frame, Frame-refl, Frame-trans, handle_backpressure-Frame,
}

abbrev pub messages : List Element → List Message
messages = map (λ e. e.message)

-- The loop waits for the first of the waiting messages, or has ended.
abbrev pub Busy : List Element → Consumer → Type 0
Busy [] c = (c.queue_is_processing ≡ false) × (c.awaited ≡ none)
Busy (x ∷ xs) c = (c.queue_is_processing ≡ true) × (c.awaited ≡ some x)

-- Every accepted message is committed or waits, in the order of acceptance.
pub record Serves (ms : List Message) (c : Consumer) : Type 0 where
  pub waiting : List Element
  pub holds : Holds c.queue waiting
  pub order : committed c.log ++ messages waiting ≡ ms
  pub observed : c.has_observer ≡ true
  pub busy : Busy waiting c

-- What the head of the loop makes of the waiting messages.
pub record Loops (c : Consumer) (xs : List Element) (c' : Consumer) : Type 0 where
  busy : Busy xs c'
  queue : c'.queue ≡ c.queue
  commits_kept : committed c'.log ≡ committed c.log
  observer : c'.has_observer ≡ c.has_observer

awaiting-Loops :
    (x : Element) (xs : List Element) (c : Consumer)
    → c.queue_is_processing ≡ true
    → Loops c (x ∷ xs) (await_front (some x) c)
awaiting-Loops x xs c on = elim (Bool-cases x.has_promise) [
  | inl p ↦ rw p (record { busy = (on, refl); queue = refl; commits_kept = refl; observer = refl })
  | inr p ↦ rw p (record { busy = (on, refl); queue = refl; commits_kept = refl; observer = refl })
]

pub queue_loop-Loops :
    (xs : List Element) (c : Consumer)
    → Holds c.queue xs
    → c.queue_is_processing ≡ true
    → Loops c xs (queue_loop c)
unfolding queue_loop
queue_loop-Loops [] c h on =
    rw (is_empty-Holds [] h)
      (record { busy = (refl, refl); queue = refl; commits_kept = refl; observer = refl })
queue_loop-Loops (x ∷ xs) c h on =
    subst (Loops c (x ∷ xs))
      (sym (ground (arith, is_empty-Holds (x ∷ xs) h, front-Holds (x ∷ xs) h)))
      (awaiting-Loops x xs c on)

pub Loops-Serves :
    (ms : List Message) (xs : List Element) (c c' : Consumer)
    → Loops c xs c'
    → Holds c.queue xs
    → committed c.log ++ messages xs ≡ ms
    → c.has_observer ≡ true
    → Serves ms c'
Loops-Serves ms xs c c' l h o w = record {
  waiting = xs;
  holds = subst (λ q. Holds q xs) (sym l.queue) h;
  order = ap (λ log. log ++ messages xs) l.commits_kept ∙ o;
  observed = l.observer ∙ w;
  busy = l.busy;
}

messages-append :
    (xs : List Element) (e : Element) → messages (xs ++ e ∷ []) ≡ messages xs ++ e.message ∷ []
messages-append [] e = refl
messages-append (x ∷ xs) e = ap (◌∷◌ x.message) (messages-append xs e)

process_queue_busy :
    (c : Consumer) → c.has_observer ≡ true → c.queue_is_processing ≡ true → (process_queue c).0 ≡ c
unfolding process_queue
process_queue_busy c o on = ground (arith, o, on)

process_queue_idle :
    (c : Consumer)
    → c.has_observer ≡ true
    → c.queue_is_processing ≡ false
    → (process_queue c).0 ≡ queue_loop (record c { error_count = 0; queue_is_processing = true })
unfolding process_queue
process_queue_idle c o off = ground (arith, o, off)

-- A message behind the waiting ones, before `processQueue` is called.
processed-Serves :
    (ms : List Message) (e : Element) (xs : List Element) (c : Consumer)
    → Holds c.queue (xs ++ e ∷ [])
    → committed c.log ++ messages xs ≡ ms
    → c.has_observer ≡ true
    → Busy xs c
    → Serves (ms ++ e.message ∷ []) (process_queue c).0
processed-Serves ms e [] c h o w b =
    subst (Serves (ms ++ e.message ∷ [])) (sym (process_queue_idle c w b.0)) (
      Loops-Serves _ (e ∷ []) _ _ (queue_loop-Loops (e ∷ []) _ h refl) h
        (ap (λ l. l ++ e.message ∷ []) (sym (append-nil (committed c.log)) ∙ o)) w)
processed-Serves ms e (x ∷ xs) c h o w b =
    subst (Serves (ms ++ e.message ∷ [])) (sym (process_queue_busy c w b.0)) (record {
      waiting = x ∷ (xs ++ e ∷ []);
      holds = h;
      order =
          ap (◌++◌ (committed c.log)) (messages-append (x ∷ xs) e)
          ∙ sym (append_assoc (committed c.log) (messages (x ∷ xs)) (e.message ∷ []))
          ∙ ap (λ l. l ++ e.message ∷ []) o;
      observed = w;
      busy = b;
    })

Busy-Frame : (xs : List Element) (c c' : Consumer) → Frame c c' → Busy xs c → Busy xs c'
Busy-Frame [] c c' f b = (f.processing ∙ b.0, f.awaited ∙ b.1)
Busy-Frame (x ∷ xs) c c' f b = (f.processing ∙ b.0, f.awaited ∙ b.1)

called_at_once-kept :
    (asynchronous : Bool) (message : Message) (c : Consumer)
    → Frame c (called_at_once asynchronous message c)
      × ((called_at_once asynchronous message c).queue ≡ c.queue)
      × ((called_at_once asynchronous message c).has_observer ≡ c.has_observer)
called_at_once-kept true message c =
    (record { processing = refl; awaited = refl; commits_kept = refl }, refl, refl)
called_at_once-kept false message c = (Frame-refl c, refl, refl)

pub accept_message-Serves :
    (asynchronous : Bool) (message : Message) (ms : List Message) (c : Consumer)
    → Serves ms c
    → Serves (ms ++ message ∷ []) (accept_message asynchronous message c)
unfolding accept_message new_element
accept_message-Serves asynchronous message ms c s =
    let e = new_element asynchronous message in
    let queued : Consumer = record c { queue = enqueue e c.queue } in
    let (f, q, o) = called_at_once-kept asynchronous message queued in
    let (g, r, p, _) =
      handle_backpressure-Frame message (called_at_once asynchronous message queued) in
    let both = Frame-trans f g in
    processed-Serves ms e s.waiting _
      (subst (λ x. Holds x (s.waiting ++ e ∷ [])) (sym (r ∙ q)) (enqueue-Holds e s.holds))
      (ap (λ log. log ++ messages s.waiting) both.commits_kept ∙ s.order) (p ∙ o ∙ s.observed)
      (Busy-Frame s.waiting queued _ both (
        Busy-Frame s.waiting c queued
          (record { processing = refl; awaited = refl; commits_kept = refl }) s.busy))
