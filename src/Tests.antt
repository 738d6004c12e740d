-- ===== src/Tests.antt =====
-- Concrete objects, and the theorems applied to them.
pub mod Data
pub mod Observing
pub mod Diagnosing
pub mod Reporting
pub mod Checking
pub mod Specs
pub mod Verdicts
pub mod Watching
pub mod Causes
pub mod Namespaces
