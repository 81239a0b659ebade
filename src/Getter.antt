-- ===== src/Getter.antt =====
-- internal/block_getters: a block with the receipts of its transactions, from three kinds of node.
pub mod Node
pub mod Trying
pub mod Base
pub mod Erigon
pub mod QuickNode
pub mod Failures
pub mod Attempts
pub mod Matched
pub mod Web3Blocks
pub mod Assembly
pub mod Recovery
pub mod Worker
pub mod Serving
pub mod Tests
