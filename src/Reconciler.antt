-- ===== src/Reconciler.antt =====
-- The package internal/reconciler/: the worker that processes the events of the outbox.
pub mod Batch
pub mod Segments
pub mod Employee
pub mod Sweeper
pub mod Events
pub mod Scheduler
pub mod Tests
