-- ===== src/Formatter.antt =====
-- internal/formatters/block_formatter.ts: from the blocks, transactions and receipts of a node to the
-- library's own, and what a reader of those gets back.
pub mod Types
pub mod Format
pub mod Laws
pub mod Reading
pub mod Tests
