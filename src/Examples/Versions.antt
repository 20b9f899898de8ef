-- ===== src/Examples/Versions.antt =====
-- The theorems on record versions at concrete inputs.
use software_blueprint_hub.Shared.{
  ◌≡◌, refl, true, some, [], ◌∷◌, ok, err, record_version_conflict, Error,
}
use software_blueprint_hub.Constitution.Repository.{
  ConstitutionStore, find_amendment, update_amendment, compare_and_set,
}
use software_blueprint_hub.Constitution.Repository.Versions.{
  Advances, Evolves, unchanged, afterwards, updates, IsSwap, update_amendment-IsSwap,
}
use software_blueprint_hub.Constitution.Repository.Updates.{
  Update, plain_update, evidence_update, written_by, row_test, apply_update,
}
use software_blueprint_hub.Constitution.Model.{EvidenceKind}
use software_blueprint_hub.Constitution.Repository.Concurrency.{
  Evolves-Advances, swap_reads_current, no_lost_update,
}
use software_blueprint_hub.Examples.Tables.{tables, returned}
use software_blueprint_hub.Examples.Amendments.{planned, opened, store_of, evidence_of}

-- The database after the ratification was opened.
abbrev after : ConstitutionStore tables
unfolding update_amendment
after =
    returned (update_amendment tables opened 3 "ada" "RATIFICATION_OPENED" (store_of planned))
      (store_of planned)

updated : update_amendment tables opened 3 "ada" "RATIFICATION_OPENED" (store_of planned) ≡ ok after
unfolding update_amendment software_blueprint_hub.Constitution.Repository.compare_and_set
updated = refl

opens : IsSwap tables opened 3 (λ row. true) (store_of planned) after
opens =
    update_amendment-IsSwap tables opened 3 "ada" "RATIFICATION_OPENED" (store_of planned) after
      updated

written : Evolves tables (store_of planned) after
written = afterwards unchanged (updates opened 3 "ada" "RATIFICATION_OPENED" updated)

Evolves-Advances_example : Advances tables (planned ∷ []) after.amendments
Evolves-Advances_example = Evolves-Advances tables written

swap_reads_current_example :
    (find_amendment tables "amendment:1" (store_of planned) ≡ some planned) × (true ≡ true)
unfolding find_amendment
swap_reads_current_example =
    swap_reads_current tables opened planned 3 (λ row. true) (store_of planned) (store_of planned)
      after refl refl unchanged opens

-- Another caller, that has read the version before, wants to record evidence.
abbrev late : Update
late =
    evidence_update (evidence_of "e3" EvidenceKind.impact) (record planned { record_version = 4 })
      "ada" "EVIDENCE"

no_lost_update_example :
    ((e : Error) × (apply_update tables late 3 after ≡ err e))
    × (compare_and_set tables (row_test late) (written_by late) 3 after.amendments
        ≡ err (record_version_conflict "amendment:1" 3))
no_lost_update_example =
    no_lost_update tables (plain_update opened "ada" "RATIFICATION_OPENED") late 3
      (store_of planned) after after refl updated unchanged
