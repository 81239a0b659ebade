-- ===== src/Producer.antt =====
-- internal/block_producers/block_producer.ts: where to start after a restart, the queue of delivered
-- blocks on its way to MongoDB, the reaction to errors, and the check of how far the producer is.
pub mod StartBlock
pub mod Resume
pub mod Deliveries
pub mod Picking
pub mod Processing
pub mod Retries
pub mod Life
pub mod Listening
pub mod Starting
pub mod Restart
pub mod Tests
mod Resumption
pub mod Overlap
pub mod Telling
pub mod Reacting
pub mod ErrorTests
