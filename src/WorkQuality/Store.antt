-- ===== src/WorkQuality/Store.antt =====
-- `PostgresWorkQualityRepository`: packages/persistence/src/work-quality-repository.ts. A row's JSON
-- document is the record itself. `validateContract` (Ajv over generated schemas, which is not code
-- of the repository) is a parameter: the details of what is wrong with a record, none for a valid one.
use Prim.Native.String.{◌++◌ as ◌+++◌}
use software_blueprint_hub.Shared.{
  ℕ, ◌+◌, String, ◌&&◌, Option, none, some, List, [], ◌∷◌, ◌==◌, Result, ok, err, ◌>>=◌, ◌>>◌,
  guard, check, nat_eq, type_error, project_version_conflict, inserted, unique_violation,
}
use software_blueprint_hub.Shared.Table.{Table, text_key}
use software_blueprint_hub.Authority.{AuthorityTables, AuthorityStore}
use software_blueprint_hub.WorkQuality.{WorkPackage, QualityGate, GateEvidence}

pub record WorkQualityTables : Type 1 where
  pub authority : AuthorityTables
  pub work_package : Table text_key WorkPackage.id
  pub gate : Table text_key QualityGate.id
  pub evidence : Table text_key GateEvidence.id
  pub package_errors : WorkPackage → Option String
  pub gate_errors : QualityGate → Option String
  pub evidence_errors : GateEvidence → Option String

pub record WorkQualityStore (t : WorkQualityTables) : Type 0 where
  pub authority : AuthorityStore t.authority
  pub packages : t.work_package.Rows
  pub gates : t.gate.Rows
  pub evidence : t.evidence.Rows

pub record QualityGateEvidenceBundle : Type 0 where
  pub gate : QualityGate
  pub evidence : List GateEvidence

-- `assertValid(name, value)`, from what the validation of the value gives.
abbrev pub assert_valid : String → Option String → Result (Unit {0})
assert_valid name none = ok tt
assert_valid name (some details) = err (type_error ("Invalid " +++ name +++ ": " +++ details))

module _ {Row : Type 0} (name : String) (errors : Row → Option String) where
  -- `if (!row) return null; assertValid(row.document); return row.document`
  abbrev pub read_one : Option Row → Result (Option Row)
  read_one none = ok none
  read_one (some row) = do assert_valid name (errors row); ok (some row)

  -- `rows.map((row) => { assertValid(row.document); return row.document; })`
  abbrev pub read_all : List Row → Result (List Row)
  read_all [] = ok []
  read_all (row ∷ rows) = do assert_valid name (errors row); rest ← read_all rows; ok (row ∷ rest)

module _ (t : WorkQualityTables) where
  unfoldable pub create_work_package :
      WorkPackage → WorkQualityStore t → Result (WorkPackage × WorkQualityStore t)
  create_work_package p s = do
    assert_valid "WorkPackage" (t.package_errors p)
    rows ← inserted (t.work_package.create p s.packages) unique_violation
    ok (p, record s { packages = rows })

  unfoldable pub find_work_package_by_id : String → WorkQualityStore t → Result (Option WorkPackage)
  find_work_package_by_id id s =
      read_one "WorkPackage" t.package_errors (t.work_package.find_unique id s.packages)

  unfoldable pub list_work_packages_by_project :
      String → WorkQualityStore t → Result (List WorkPackage)
  list_work_packages_by_project project s =
      read_all "WorkPackage" t.package_errors
        (t.work_package.find_many (λ p. p.project_id == project) s.packages)

  unfoldable pub update_work_package :
      WorkPackage → ℕ → WorkQualityStore t → Result (WorkPackage × WorkQualityStore t)
  update_work_package p expected s = do
    assert_valid "WorkPackage" (t.package_errors p)
    check (nat_eq p.record_version (expected + 1))
        "Updated WorkPackage recordVersion must increment exactly by one"
    let (count, rows) =
        t.work_package.update_many
          (λ row. row.project_id == p.project_id && nat_eq row.record_version expected) p s.packages
    guard (nat_eq count 1) (project_version_conflict p.project_id expected)
    ok (p, record s { packages = rows })

  unfoldable pub create_quality_gate :
      QualityGate → WorkQualityStore t → Result (QualityGate × WorkQualityStore t)
  create_quality_gate g s = do
    assert_valid "QualityGate" (t.gate_errors g)
    rows ← inserted (t.gate.create g s.gates) unique_violation
    ok (g, record s { gates = rows })

  unfoldable pub find_quality_gate_by_id : String → WorkQualityStore t → Result (Option QualityGate)
  find_quality_gate_by_id id s =
      read_one "QualityGate" t.gate_errors (t.gate.find_unique id s.gates)

  unfoldable pub list_quality_gates_by_project :
      String → WorkQualityStore t → Result (List QualityGate)
  list_quality_gates_by_project project s =
      read_all "QualityGate" t.gate_errors (t.gate.find_many (λ g. g.project_id == project) s.gates)

  -- One row of `listQualityGateEvidenceByProject`, with the evidence that it includes.
  abbrev pub read_bundles :
      List QualityGate → WorkQualityStore t → Result (List QualityGateEvidenceBundle)
  read_bundles [] s = ok []
  read_bundles (g ∷ gates) s = do
    assert_valid "QualityGate" (t.gate_errors g)
    evidence ←
        read_all "GateEvidence" t.evidence_errors
          (t.evidence.find_many (λ e. e.gate_id == g.id) s.evidence)
    rest ← read_bundles gates s
    ok (record { gate = g; evidence = evidence } ∷ rest)

  unfoldable pub list_quality_gate_evidence_by_project :
      String → WorkQualityStore t → Result (List QualityGateEvidenceBundle)
  list_quality_gate_evidence_by_project project s =
      read_bundles (t.gate.find_many (λ g. g.project_id == project) s.gates) s

  unfoldable pub update_quality_gate :
      QualityGate → ℕ → WorkQualityStore t → Result (QualityGate × WorkQualityStore t)
  update_quality_gate g expected s = do
    assert_valid "QualityGate" (t.gate_errors g)
    check (nat_eq g.record_version (expected + 1))
        "Updated QualityGate recordVersion must increment exactly by one"
    let (count, rows) =
        t.gate.update_many
          (λ row. row.project_id == g.project_id && nat_eq row.record_version expected) g s.gates
    guard (nat_eq count 1) (project_version_conflict g.project_id expected)
    ok (g, record s { gates = rows })

  unfoldable pub create_gate_evidence :
      GateEvidence → WorkQualityStore t → Result (GateEvidence × WorkQualityStore t)
  create_gate_evidence e s = do
    assert_valid "GateEvidence" (t.evidence_errors e)
    rows ← inserted (t.evidence.create e s.evidence) unique_violation
    ok (e, record s { evidence = rows })

  unfoldable pub find_gate_evidence_by_id :
      String → WorkQualityStore t → Result (Option GateEvidence)
  find_gate_evidence_by_id id s =
      read_one "GateEvidence" t.evidence_errors (t.evidence.find_unique id s.evidence)

  unfoldable pub list_gate_evidence_by_gate :
      String → WorkQualityStore t → Result (List GateEvidence)
  list_gate_evidence_by_gate gate s =
      read_all "GateEvidence" t.evidence_errors
        (t.evidence.find_many (λ e. e.gate_id == gate) s.evidence)
