-- ===== src/Lib.antt =====
-- Software Blueprint Hub: the canonical authority over a versioned constitution.
--
-- The program keeps projects, their roles, and a constitution that is amended only through a life
-- cycle: draft, impact review, migration plan, ratification by the owner of the system, publication,
-- propagation and verification. It also lets a trusted runner work on one node of a workflow, under a
-- signed and bounded grant. The parts and the files that model them:
--
--   * Authority models packages/core/src/authority.ts (AuthorityService) and
--     packages/persistence/src/authority-repository.ts. Its children hold the theorems: Access on
--     `can` and `readableProjectScope`, Grants on `grantProjectRole`, Bootstrap on `bootstrapOwner`.
--   * Constitution/Model has the records of packages/core/src/constitution-authority.ts.
--   * Constitution/Transition models `transitionConstitutionAmendment`, `cleanIds` and
--     `canonicalNext` of packages/application/src/constitution-authority.ts, with Lifecycle,
--     Evidence and Ids on what they guarantee.
--   * Constitution/Checks has the validators of fields of that file, Constitution/Checked what
--     they have checked, and Constitution/Attestation the validators of the attestations.
--   * Constitution/Repository models packages/persistence/src/constitution-authority-repository.ts,
--     with Versions, Updates and Concurrency on its compare-and-set.
--   * Constitution/Service has the handlers of ConstitutionAuthorityApplicationService: Drafts,
--     Stages, Publication and Propagation, their checks in Requirements, and what they have done when
--     they return in Drafted, Committed, Reviewed, Decided, Publishing, Published and Verified.
--   * Execution models packages/application/src/prompt-workflow-execution.ts: Texts the regular
--     expressions and the signed text, Granted `verifyWorkflowExecutionGrant`, Loop the attempts,
--     Gateway `executeBoundedWorkflowNode`, and Recorded, Bounds, Ready, Signed, Verified and Executed
--     what a report stands for.
--   * WorkQuality models packages/core/src/work-quality.ts, its repository in
--     packages/persistence/src/work-quality-repository.ts (Store) and its service in
--     packages/application/src/work-quality-service.ts (Service): Dependencies and Acyclic on
--     `validateWorkPackageDependencies`, Readiness on `explainWorkPackageReadiness`, Gates on
--     `assertQualityGateCanPass`, Graph and Stale on the stored packages, Passed and History on the gates.
--   * ProjectReadiness models packages/core/src/project-readiness.ts: the items of gates, and in Summary
--     `summarizeProjectReadiness`; GateReady is on the state, Counts on the numbers. Service
--     is packages/application/src/project-readiness.ts.
--   * Resolver models packages/blueprint-engine/src/resolver.ts: Versions (ids, versions and orders),
--     Fingerprint (what is hashed), Merge, Closure, Cycles, Activation and Blueprint for the steps of
--     `resolveBlueprint`, which is in Resolve. Entries, Growth and Merged are on merging, Marked,
--     Closed and Ended on the closure, Acyclic on the cycles, Resolved and Graph on the result. The
--     closure's fuel is the length of its first queue, the number of all dependencies, and one: an
--     id enters the queue once at the start and once for each dependency of a visited module.
--   * Shared/Search is the depth-first search that the work packages and the blueprint resolver
--     share; its fuel bounds the length of a path and is one more than the number of ids, which is
--     enough since a path does not repeat an id.
--   * Shared has what they use: errors and results, tables, texts, time stamps, JSON, sorting.
--   * Examples applies each theorem to concrete inputs, on tables in memory.
--
-- The service asks the authority service for constitutional authority before anything else, and
-- again before a publication; it reads an amendment by id and expected version, moves it along the
-- life cycle, and stores it through the repository, whose transactions compare and set the version.
--
-- Conventions. A database table is an interface (Shared/Table): what a lookup by key gives after a
-- create, an upsert and a guarded update; a create may fail, which is the unique violation. Its laws
-- are those of a table with a unique key, and Shared/Table/Memory meets them. An `await` lets other
-- callers act: `view n` is the database as the n-th access of a handler sees it, and a theorem
-- relates the views only where it says so: whatever the others did in between is covered. One
-- question for a right (`can`, `readableProjectScope`, and what rests on them) reads the owner and the
-- roles from one such view, where the code reads them one after the other. A transaction is atomic: it acts on one view and
-- gives the next state, or an error and no new state. Thrown errors are `err` values.
-- Rows hold typed records, not JSON documents. Counts and record versions are natural numbers.
-- Fields whose type is the literal `false` or a literal text are a `Bool` or a `String`, so that the
-- code, not the type, keeps them. `toLowerCase` is on ASCII letters. Arguments stand for what is not
-- in the repository: `sha256_hex` for the hash of node:crypto, `uuid` for `randomUUID`, `le` for
-- `localeCompare` of the host's locale, `package_errors`, `gate_errors` and `evidence_errors` for the
-- JSON schema validation, `now` for the clock, and the attestation verifiers.
-- The execution gateway acts on an abstract world (Execution, Services): clock, freshness, runner and
-- journal, with laws on what was appended and executed for a request. `Trust` has what is asked of
-- the host and of other parts: `Date.parse`, `Number`, the Ed25519 check, the pinned keys, the
-- adoption, `validateWorkflow` and `workflowManifestDigest`. Errors that these throw stand as one
-- text each. The loop runs over the attempts that the grant allows, so that it needs no fuel.
-- `decimal` divides by ten on fuel: a number has at most as many digits as its value plus one.
--
-- Not modelled: the decoding of stored documents, the prompt texts, the other services (workflow
-- graphs and readiness, releases, governance, reviews, reports), the web application and the scripts.
pub mod Shared
pub mod Authority
pub mod Constitution
pub mod Execution
pub mod WorkQuality
pub mod Resolver
pub mod ProjectReadiness
pub mod Examples
