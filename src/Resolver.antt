-- ===== src/Resolver.antt =====
-- The package resolver/.
pub mod Value
pub mod Ast
pub mod Types
pub mod Facts
pub mod Conflicts
pub mod Trace
pub mod Selection
pub mod Resolve
pub mod Tests
