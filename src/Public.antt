-- ===== src/Public.antt =====
-- public/kafka: how the consumers and producers of an application get their coders.
pub mod Coders
pub mod Topics
pub mod Tests
