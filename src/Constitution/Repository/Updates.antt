-- ===== src/Constitution/Repository/Updates.antt =====
-- The four updates of an amendment that the repository offers, as one type:
-- packages/persistence/src/constitution-authority-repository.ts.
use software_blueprint_hub.Shared.{ℕ, String, ◌≡◌, Bool, true, Result, ok}
use software_blueprint_hub.Constitution.Model.{
  Amendment, EvidenceRecord, RatificationDecision, PublicationRecord, ratified, state_eq,
}
use software_blueprint_hub.Constitution.Repository.{
  ConstitutionTables, ConstitutionStore, update_amendment, append_evidence_and_update,
  append_decision_and_update, append_publication_and_update,
}
use software_blueprint_hub.Constitution.Repository.Versions.{
  IsSwap, update_amendment-IsSwap, append_evidence-IsSwap, append_decision-IsSwap,
  append_publication-IsSwap,
}

-- A call of one of the methods, but for the expected version.
pub data Update : Type 0 where
  plain_update : Amendment → String → String → Update
  evidence_update : EvidenceRecord → Amendment → String → String → Update
  decision_update : RatificationDecision → Amendment → Update
  publication_update : PublicationRecord → EvidenceRecord → Amendment → Update

abbrev pub written_by : Update → Amendment
written_by (plain_update a actor action) = a
written_by (evidence_update e a actor action) = a
written_by (decision_update d a) = a
written_by (publication_update p e a) = a

-- What the `where` clause of the method asks of the stored row, past its id and its version.
abbrev pub row_test : Update → Amendment → Bool
row_test (publication_update p e a) row = state_eq row.state ratified
row_test _ row = true

module _ (t : ConstitutionTables) where
  abbrev pub apply_update : Update → ℕ → ConstitutionStore t → Result (ConstitutionStore t)
  apply_update (plain_update a actor action) expected s =
      update_amendment t a expected actor action s
  apply_update (evidence_update e a actor action) expected s =
      append_evidence_and_update t e a expected actor action s
  apply_update (decision_update d a) expected s = append_decision_and_update t d a expected s
  apply_update (publication_update p e a) expected s =
      append_publication_and_update t p e a expected s

  pub apply_update-IsSwap :
      (u : Update) (expected : ℕ) (s s' : ConstitutionStore t)
      → apply_update u expected s ≡ ok s'
      → IsSwap t (written_by u) expected (row_test u) s s'
  apply_update-IsSwap (plain_update a actor action) expected s s' h =
      update_amendment-IsSwap t a expected actor action s s' h
  apply_update-IsSwap (evidence_update e a actor action) expected s s' h =
      append_evidence-IsSwap t e a expected actor action s s' h
  apply_update-IsSwap (decision_update d a) expected s s' h =
      append_decision-IsSwap t d a expected s s' h
  apply_update-IsSwap (publication_update p e a) expected s s' h =
      append_publication-IsSwap t p e a expected s s' h
