-- ===== src/Constitution.antt =====
-- The life of a constitution amendment: packages/core/src/constitution-authority.ts,
-- packages/application/src/constitution-authority.ts and
-- packages/persistence/src/constitution-authority-repository.ts.
pub mod Model
pub mod Transition
pub mod Checks
pub mod Checked
pub mod Attestation
pub mod Repository
pub mod Service
