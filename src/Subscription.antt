-- ===== src/Subscription.antt =====
-- internal/block_subscription: the subscription to the logs of a node, which turns them to a stream
-- of whole blocks.
pub mod State
pub mod Live
pub mod Silence
pub mod BackFill
pub mod Walks
pub mod Requests
pub mod Keeping
pub mod Linked
pub mod Filling
pub mod FillOrder
pub mod FalseReorg
pub mod Polling
pub mod PollOrder
pub mod Erigon
pub mod ErigonLinked
pub mod Worker
pub mod Workers
pub mod Gone
pub mod Replacing
pub mod Tests
