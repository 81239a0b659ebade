-- ===== src/KafkaProducer/Sharing.antt =====
-- Overlapping calls of `start` of internal/kafka/producer/abstract_producer.ts.
use chain_indexer_framework.Prelude.{
  ℕ, ◌≡◌, ◌⊎◌, refl, sym, ap, ◌∙◌, inl, inr, Bool, true, false, not, ◌&&◌, String, Option, none,
  some, [], arith,
}
use chain_indexer_framework.Prelude.{either_way}
use chain_indexer_framework.Errors.Value.{JsValue}
use chain_indexer_framework.KafkaProducer.Connecting.{
  Promised, absent, pending, fulfilled, rejected, Connecting, await_promise, call_start,
  connect_answered, on_connect_answer, on_connection_lost, ConnectionEvent, calls_start, calls_back,
  loses_connection, connection_event,
}

abbrev pub is_pending : Promised → Bool
is_pending absent = false
is_pending pending = true
is_pending fulfilled = false
is_pending (rejected e) = false

-- The promise is pending exactly while the client connects, a client that connects is not connected,
-- and calls wait only while it connects.
pub record Shares (c : Connecting) : Type 0 where
  pub same : is_pending c.promise ≡ c.producer_connecting
  pub exclusive : (c.producer_connecting && c.producer_connected) ≡ false
  pub waited_for : (c.waiting ≡ []) ⊎ (c.producer_connecting ≡ true)

module _ (trace : String) where
  await-Shares :
      (call : ℕ) (p : Promised) (c : Connecting)
      → c.promise ≡ p
      → Shares c
      → Shares (await_promise trace call p c)
  await-Shares call absent c e s = record {
    same = s.same;
    exclusive = s.exclusive;
    waited_for = s.waited_for;
  }
  await-Shares call pending c e s = record {
    same = s.same;
    exclusive = s.exclusive;
    waited_for = inr (sym s.same ∙ ap is_pending e);
  }
  await-Shares call fulfilled c e s = record {
    same = s.same;
    exclusive = s.exclusive;
    waited_for = s.waited_for;
  }
  await-Shares call (rejected x) c e s = record {
    same = ap is_pending e;
    exclusive = refl;
    waited_for = elim s.waited_for [
      | inl h ↦ inl h
      | inr y ↦ absurd (cc (y, s.same, ap is_pending e))
    ];
  }

  start-Shares : (call : ℕ) (c : Connecting) → Shares c → Shares (call_start trace call c)
  unfolding call_start
  start-Shares call c s =
      either_way Shares (not c.producer_connecting && not c.producer_connected) _ _
        (λ free. record { same = refl; exclusive = ground (arith, free); waited_for = inr refl })
        (λ busy. await-Shares call c.promise c refl s)

  answer-Shares :
      (answer : Option JsValue) (c : Connecting)
      → Shares c
      → Shares (on_connect_answer trace answer c)
  unfolding on_connect_answer
  answer-Shares none c s =
      either_way Shares c.producer_connecting (connect_answered trace none c) c
        (λ y. record { same = refl; exclusive = refl; waited_for = inl refl }) (λ n. s)
  answer-Shares (some e) c s =
      either_way Shares c.producer_connecting (connect_answered trace (some e) c) c
        (λ y. record { same = refl; exclusive = refl; waited_for = inl refl }) (λ n. s)

  pub event-Shares :
      (e : ConnectionEvent trace) (c : Connecting) → Shares c → Shares (connection_event trace e c)
  unfolding on_connection_lost
  event-Shares (calls_start call) c s = start-Shares call c s
  event-Shares (calls_back answer) c s = answer-Shares answer c s
  event-Shares loses_connection c s = record {
    same = s.same;
    exclusive = ground arith;
    waited_for = s.waited_for;
  }
