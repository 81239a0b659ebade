-- ===== src/Consumer/Order.antt =====
-- Which messages the consumer of internal/kafka/consumer/abstract_consumer.ts commits, and in which
-- order, as long as it does not give up.
use chain_indexer_framework.Prelude.{
  ℕ, zero, suc, ◌≡◌, refl, sym, ap, subst, ◌∙◌, Bool, true, false, String, List, [], ◌∷◌, ◌++◌,
  append_assoc, arith,
}
use chain_indexer_framework.Errors.Value.{JsValue}
use chain_indexer_framework.Queue.{shift}
use chain_indexer_framework.Queue.Refines.{Holds, shift-Holds, new_queue-Holds}
use chain_indexer_framework.Store.{Outcome, done, failed}
use chain_indexer_framework.Consumer.State.{Message, Element, commits, Consumer, ConsumerConfig}
use chain_indexer_framework.Consumer.Steps.{
  logged, new_consumer, settle, safe_commit_message, finish_element, fail_element, gives_up,
  on_settled,
}
use chain_indexer_framework.Consumer.Receiving.{accept_message}
use chain_indexer_framework.Consumer.Frame.{committed, handle_backpressure-Frame}
use chain_indexer_framework.Consumer.Serving.{
  messages, Busy, Serves, queue_loop-Loops, Loops-Serves, accept_message-Serves,
}

module _ (trace : String) (commit : ℕ → Outcome (Unit {0})) where
  commits_at_once :
      (message : Message) (n : ℕ) (c : Consumer)
      → ((i : ℕ) → commit i ≡ done tt)
      → safe_commit_message trace commit message n c ≡ logged (commits message) c
  unfolding safe_commit_message
  commits_at_once message zero c all = ground (arith, all 0)
  commits_at_once message (suc n) c all = ground (arith, all (suc n))

  finish_element-Serves :
      (x : Element) (xs : List Element) (ms : List Message) (c : Consumer)
      → ((i : ℕ) → commit i ≡ done tt)
      → Holds c.queue (x ∷ xs)
      → committed c.log ++ messages (x ∷ xs) ≡ ms
      → c.has_observer ≡ true
      → c.queue_is_processing ≡ true
      → Serves ms (finish_element trace commit x c)
  unfolding finish_element
  finish_element-Serves x xs ms c all h o w on =
      let left : Consumer = record (logged (commits x.message) c) { queue = (shift c.queue).1 } in
      let (f, q, p, _) = handle_backpressure-Frame x.message left in
      let held = subst (λ y. Holds y xs) (sym q) (shift-Holds (x ∷ xs) h).1 in
      let ordered =
        ap (λ log. log ++ messages xs) f.commits_kept
        ∙ append_assoc (committed c.log) (x.message ∷ []) (messages xs)
        ∙ o in
      rw (commits_at_once x.message c.max_retries c all) (
        Loops-Serves ms xs _ _ (queue_loop-Loops xs _ held (f.processing ∙ on)) held ordered
          (p ∙ w))

  fail_element-Serves :
      (e : JsValue) (x : Element) (xs : List Element) (ms : List Message) (c : Consumer)
      → gives_up c e ≡ false
      → Holds c.queue (x ∷ xs)
      → committed c.log ++ messages (x ∷ xs) ≡ ms
      → c.has_observer ≡ true
      → c.queue_is_processing ≡ true
      → Serves ms (fail_element trace e c)
  unfolding fail_element
  fail_element-Serves e x xs ms c mild h o w on =
      rw mild (Loops-Serves ms (x ∷ xs) _ _ (queue_loop-Loops (x ∷ xs) _ h on) h o w)

  -- A settled promise, if the consumer does not give up.
  abbrev pub Continues : Consumer → Outcome (Unit {0}) → Type 0
  Continues c (done u) = Unit {0}
  Continues c (failed e) = gives_up c e ≡ false

  settled-Serves :
      (o : Outcome (Unit {0})) (xs : List Element) (ms : List Message) (c : Consumer)
      → ((i : ℕ) → commit i ≡ done tt)
      → Continues c o
      → Holds c.queue xs
      → committed c.log ++ messages xs ≡ ms
      → c.has_observer ≡ true
      → Busy xs c
      → Serves ms (on_settled trace commit o c)
  unfolding on_settled
  settled-Serves o [] ms c all mild h k w b =
      subst (λ a. Serves ms (settle trace commit a o c)) (sym b.1)
        (record { waiting = []; holds = h; order = k; observed = w; busy = b })
  settled-Serves (done u) (x ∷ xs) ms c all mild h k w b =
      subst (λ a. Serves ms (settle trace commit a (done u) c)) (sym b.1)
        (finish_element-Serves x xs ms c all h k w b.0)
  settled-Serves (failed e) (x ∷ xs) ms c all mild h k w b =
      subst (λ a. Serves ms (settle trace commit a (failed e) c)) (sym b.1)
        (fail_element-Serves e x xs ms c mild h k w b.0)

  -- A consumer with an observer, the messages that it has accepted since it was made, and what its
  -- awaited promises came to, up to where it would give up.
  pub data Served (asynchronous : Bool) : List Message → Consumer → Type 0 where
    started :
        (topics coders : List String) (config : ConsumerConfig)
        → Served asynchronous []
            (record (new_consumer topics coders config) { has_observer = true })
    accepted :
        {ms : List Message} {c : Consumer}
        → Served asynchronous ms c
        → (message : Message)
        → Served asynchronous (ms ++ message ∷ []) (accept_message asynchronous message c)
    settled :
        {ms : List Message} {c : Consumer}
        → Served asynchronous ms c
        → (o : Outcome (Unit {0})) → Continues c o
        → Served asynchronous ms (on_settled trace commit o c)

  -- Both consumers, from new on, while messages arrive and promises settle, until they give up on a
  -- message, and if each commit succeeds, no error comes from the client and it is not disconnected: the
  -- committed
  -- messages followed by the waiting ones are the accepted messages, in their order, so that nothing
  -- is committed before what was accepted earlier, twice, or not at all; and `processQueue` waits for
  -- the first of the waiting messages, and runs exactly while one waits.
  pub Served-Serves :
      {asynchronous : Bool} {ms : List Message} {c : Consumer}
      → ((i : ℕ) → commit i ≡ done tt)
      → Served asynchronous ms c
      → Serves ms c
  unfolding new_consumer
  Served-Serves all (started topics coders config) = record {
    waiting = [];
    holds = new_queue-Holds;
    order = refl;
    observed = refl;
    busy = (refl, refl);
  }
  Served-Serves {asynchronous} all (accepted {ms} {c} s message) =
      accept_message-Serves asynchronous message ms c (Served-Serves all s)
  Served-Serves all (settled {ms} {c} s o mild) =
      let i = Served-Serves all s in
      settled-Serves o i.waiting ms c all mild i.holds i.order i.observed i.busy
