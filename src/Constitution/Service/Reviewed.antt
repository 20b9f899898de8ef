-- ===== src/Constitution/Service/Reviewed.antt =====
-- The reviewed candidate that `requireReviewedCandidate` finds:
-- packages/application/src/constitution-authority.ts.
use software_blueprint_hub.Shared.{
  ℕ, String, ◌≡◌, refl, ◌⊎◌, inl, inr, Bool, true, ◌&&◌, ◌==◌, some, List, ok, err, In, find,
  find-test, find-In, includes, includes_iff, eq_of_==, >>=-eq-ok, Option-cases, and_parts, arith,
  Error,
}
use software_blueprint_hub.Shared.Text.{is_git_sha, is_sha256}
use software_blueprint_hub.Constitution.Model.{
  EvidenceKind, impact, migration, Amendment, EvidenceRecord, DecisionKind, approve, reject,
}
use software_blueprint_hub.Constitution.Repository.{
  ConstitutionTables, ConstitutionStore, list_evidence,
}
use software_blueprint_hub.Constitution.Service.Requirements.{
  is_impact, is_migration, seals, require_reviewed_candidate,
}
use software_blueprint_hub.Constitution.Service.Stages.{reviewed_if_approved}

module _ (t : ConstitutionTables) where
  -- The record is stored as evidence of this kind for the amendment, which lists it by its id.
  pub record IsListed (c : Amendment) (ids : List String) (kind : EvidenceKind)
      (s : ConstitutionStore t) (e : EvidenceRecord) : Type 0 where
    pub stored : t.evidence.find_unique e.id s.evidence ≡ some e
    pub of_amendment : e.amendment_id ≡ c.proposal.id
    pub of_kind : e.kind ≡ kind
    pub listed : In e.id ids

  -- The seal is the migration evidence of the amendment, at an exact commit and with an exact
  -- digest, and the amendment has impact evidence at the same commit.
  pub record IsReviewed (c : Amendment) (s : ConstitutionStore t) (seal : EvidenceRecord)
      : Type 0 where
    pub migrated : IsListed c c.migration_evidence_ids migration s seal
    pub assessed : EvidenceRecord
    pub impacted : IsListed c c.impact_evidence_ids impact s assessed
    pub same_revision : assessed.revision ≡ seal.revision
    pub at_commit : is_git_sha seal.revision ≡ true
    pub digested : is_sha256 seal.digest ≡ true

  is_impact_sound : (kind : EvidenceKind) → is_impact kind ≡ true → kind ≡ impact
  is_impact_sound impact h = refl
  is_impact_sound _ h = absurd (ground arith)

  is_migration_sound : (kind : EvidenceKind) → is_migration kind ≡ true → kind ≡ migration
  is_migration_sound migration h = refl
  is_migration_sound _ h = absurd (ground arith)

  found-IsListed :
      (c : Amendment) (ids : List String) (kind : EvidenceKind) (test : EvidenceKind → Bool)
      (s : ConstitutionStore t) (e : EvidenceRecord)
      → ((k : EvidenceKind) → test k ≡ true → k ≡ kind)
      → find (λ x. includes ids x.id && test x.kind) (list_evidence t c.proposal.id s) ≡ some e
      → IsListed c ids kind s e
  unfolding list_evidence
  found-IsListed c ids kind test s e sound h =
      let rows = list_evidence t c.proposal.id s in
      let wanted = λ (x : EvidenceRecord). includes ids x.id && test x.kind in
      let (listed, of_kind) =
        and_parts (includes ids e.id) (test e.kind) (find-test wanted rows e h) in
      let (stored, own) =
        t.evidence.find-many (λ x. x.amendment_id == c.proposal.id) s.evidence e
          (find-In wanted rows e h) in
      record {
        stored = stored;
        of_amendment = eq_of_== e.amendment_id c.proposal.id own;
        of_kind = sound e.kind of_kind;
        listed = (includes_iff ids e.id).0 listed;
      }

  seals-IsReviewed :
      (c : Amendment) (s : ConstitutionStore t) (i m seal : EvidenceRecord) (e : Error)
      → IsListed c c.impact_evidence_ids impact s i
      → IsListed c c.migration_evidence_ids migration s m
      → seals (some i) (some m) (err e) ≡ ok seal
      → IsReviewed c s seal
  seals-IsReviewed c s i m seal e impacted migrated h =
      let same : m ≡ seal = ground arith in
      rw (← same) (record {
        migrated = migrated;
        assessed = i;
        impacted = impacted;
        same_revision = eq_of_== i.revision m.revision (ground arith);
        at_commit = ground arith;
        digested = ground arith;
      })

  pub require_reviewed_candidate-IsReviewed :
      (c : Amendment) (s : ConstitutionStore t) (seal : EvidenceRecord)
      → require_reviewed_candidate t c s ≡ ok seal
      → IsReviewed c s seal
  unfolding require_reviewed_candidate
  require_reviewed_candidate-IsReviewed c s seal h =
      let rows = list_evidence t c.proposal.id s in
      let wants_impact =
        λ (e : EvidenceRecord). includes c.impact_evidence_ids e.id && is_impact e.kind in
      let wants_migration =
        λ (e : EvidenceRecord). includes c.migration_evidence_ids e.id && is_migration e.kind in
      elim (Option-cases (find wants_impact rows)) [
        | inl e ↦ let thrown = rw e at h in cc
        | inr (i, there) ↦ elim (Option-cases (find wants_migration rows)) [
          | inl e ↦ let thrown = rw (there, e) at h in cc
          | inr (m, here) ↦
              seals-IsReviewed c s i m seal _
                (found-IsListed c c.impact_evidence_ids impact is_impact s i is_impact_sound there)
                (found-IsListed c c.migration_evidence_ids migration is_migration s m
                  is_migration_sound here)
                (rw (there, here) at h)
        ]
      ]

  -- A decision that is allowed rejects, or it has a reviewed candidate.
  pub reviewed_if_approved-IsReviewed :
      (view : ℕ → ConstitutionStore t) (kind : DecisionKind) (c : Amendment)
      → reviewed_if_approved t view kind c ≡ ok tt
      → (kind ≡ reject) ⊎ ((seal : EvidenceRecord) × IsReviewed c (view 2) seal)
  reviewed_if_approved-IsReviewed view approve c h =
      let (seal, found, _) = >>=-eq-ok (require_reviewed_candidate t c (view 2)) _ h in
      inr (seal, require_reviewed_candidate-IsReviewed c (view 2) seal found)
  reviewed_if_approved-IsReviewed view reject c h = inl refl
