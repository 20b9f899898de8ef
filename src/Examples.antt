-- ===== src/Examples.antt =====
-- Concrete inputs: the tables in memory, tests of the definitions, and each theorem applied once.
pub mod Tables
pub mod Access
pub mod Amendments
pub mod Lifecycle
pub mod Attestations
pub mod Versions
pub mod Handlers
pub mod Sealing
pub mod Texts
pub mod Executions
pub mod Packages
pub mod Resolutions
pub mod Readiness
