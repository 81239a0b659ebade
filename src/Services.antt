-- ===== src/Services.antt =====
-- The services that every part uses: the database and the logger, of which a process has one each, and
-- the small clients of internal/rpc and internal/coder.
pub mod Database
pub mod Shared
pub mod Logger
pub mod Calls
pub mod Tests
