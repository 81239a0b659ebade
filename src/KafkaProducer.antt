-- ===== src/KafkaProducer.antt =====
-- internal/kafka/producer: the producers over librdkafka's client.
pub mod Sending
pub mod Delivery
pub mod Confirmed
pub mod Asynchronous
pub mod Tests
pub mod Listeners
pub mod Connecting
pub mod Sharing
pub mod Counting
