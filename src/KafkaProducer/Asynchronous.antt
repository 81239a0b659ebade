-- ===== src/KafkaProducer/Asynchronous.antt =====
-- internal/kafka/producer/asynchronous_producer.ts: `produceEvent` and the "delivered" events.
use chain_indexer_framework.Prelude.{
  ℕ, ◌+◌, ◌==◌, String, Option, none, some, List, ◌∷◌, if◌then◌else◌,
}
use chain_indexer_framework.Errors.Value.{JsValue}
use chain_indexer_framework.Store.{Outcome}
use chain_indexer_framework.KafkaProducer.Sending.{Sender, send_to_internal_producer}
use chain_indexer_framework.KafkaProducer.Delivery.{Report}

pub record AsynchronousSender : Type 0 where
  pub sender : Sender
  -- The listeners for "delivery-report", and the reports emitted as "delivered", newest first.
  pub delivery_listeners : ℕ
  pub delivered : List Report

-- A delivery report, or an error alone, which is dropped.
unfoldable pub on_delivery_report : Option Report → AsynchronousSender → AsynchronousSender
on_delivery_report none s = s
on_delivery_report (some report) s = record s { delivered = report ∷ s.delivered }

abbrev pub with_listener : AsynchronousSender → AsynchronousSender
with_listener s =
    if s.delivery_listeners == 0
    then record s { delivery_listeners = s.delivery_listeners + 1 }
    else s

unfoldable pub produce_asynchronously :
    (trace : String)
    → Option JsValue
    → Outcome (Unit {0})
    → AsynchronousSender
    → AsynchronousSender × Outcome (Unit {0})
unfolding send_to_internal_producer
produce_asynchronously trace connection answer s =
    let (sender, result) = send_to_internal_producer trace connection answer s.sender in
    (record (with_listener s) { sender = sender }, result)
