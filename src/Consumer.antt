-- ===== src/Consumer.antt =====
-- internal/kafka/consumer: the consumer over librdkafka's client, with its buffer, retries, commits
-- and back pressure.
pub mod State
pub mod Steps
pub mod Receiving
pub mod Connection
pub mod Attempts
pub mod Pressure
pub mod Frame
pub mod Serving
pub mod Order
pub mod Kept
pub mod Stuck
pub mod Tests
pub mod Overlap
pub mod Arrivals
