-- ===== src/Transform.antt =====
-- internal/data_transformation/abstract_data_transformer.ts: from consumed messages to produced blocks.
pub mod Data
pub mod Closing
pub mod Tests
