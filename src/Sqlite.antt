-- ===== src/Sqlite.antt =====
-- codex-loop-prompt-architect/scripts/loop_architect/v4_persistence/sqlite_store.py: the durable
-- store, one SQLite transaction for each operation.
pub mod Database
pub mod Wire
pub mod Outbox
pub mod Identity
pub mod Write
pub mod Apply
pub mod Calls
pub mod Keeps
pub mod Returns
pub mod Extends
pub mod Claims
pub mod Atomic
pub mod Refines
pub mod Wedged
