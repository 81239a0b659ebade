-- ===== src/Coder.antt =====
-- internal/coder/protobuf_coder.ts: messages to bytes and back. protobufjs is an argument.
pub mod State
pub mod Transcoding
pub mod Tests
