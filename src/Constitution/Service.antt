-- ===== src/Constitution/Service.antt =====
-- `ConstitutionAuthorityApplicationService`: packages/application/src/constitution-authority.ts. Each
-- database call of a handler is awaited, and other callers may write before it: `view n` is the
-- store at the handler's n-th call, and the last call is the write. A UUID is what `randomUUID`
-- gives; `actor!` is read after the check that an actor is there.
pub mod Requirements
pub mod Drafts
pub mod Stages
pub mod Publication
pub mod Propagation
pub mod Committed
pub mod Reviewed
pub mod Decided
pub mod Drafted
pub mod Publishing
pub mod Published
pub mod Verified
