-- ===== src/Repo.antt =====
-- The package internal/repo/: the tables of the database and the operations on them.
pub mod Outbox
pub mod Rules
pub mod Traces
pub mod Transitions
pub mod Store
pub mod Facts
pub mod Projection
pub mod Segments
pub mod Registry
pub mod Tests
