-- ===== src/Constitution/Repository/Versions.antt =====
-- Record versions: what the compare-and-set of the repository promises its callers, whatever else
-- is written between a read and an update.
use software_blueprint_hub.Shared.{
  ℕ, ◌+◌, ◌<◌, String, ◌≡◌, refl, sym, ap, ◌∙◌, ◌⊎◌, inl, inr, Bool, true, ◌&&◌, none, some, ◌==◌,
  eq_iff, if◌then◌else◌, arith, ok, guard-eq-ok, nat_eq, Bool-cases, Option-cases,
}
use software_blueprint_hub.Shared.Table.{hits}
use software_blueprint_hub.Authority.{AuthorityStore}
use software_blueprint_hub.Constitution.Model.{
  ratified, state_eq, Amendment, EvidenceRecord, RatificationDecision, PublicationRecord,
}
use software_blueprint_hub.Constitution.Repository.{
  ConstitutionTables, ConstitutionStore, amendment_key, compare_and_set, create_amendment,
  update_amendment, append_evidence_and_update, append_decision_and_update,
  append_publication_and_update,
}

module _ (t : ConstitutionTables) where
  open t use {amendment}

  -- A row of this version that passes the test.
  abbrev pub HasVersion : (Amendment → Bool) → Amendment → ℕ → amendment.Rows → Type 0
  HasVersion test a expected rows =
      (r : Amendment) × (amendment.find_unique (amendment_key a) rows ≡ some r)
      × (r.record_version ≡ expected)
      × (test r ≡ true)

  -- The row of the record's id is the record, and every other row is as before.
  abbrev pub IsWritten : Amendment → amendment.Rows → amendment.Rows → Type 0
  IsWritten a rows rows' =
      (j : String)
      → amendment.find_unique j rows'
        ≡ (if amendment_key a == j then some a else amendment.find_unique j rows)

  hits-HasVersion :
      (test : Amendment → Bool) (a : Amendment) (expected : ℕ) (rows : amendment.Rows)
      → hits
          (λ row. nat_eq row.record_version expected && test row)
          (amendment.find_unique (amendment_key a) rows)
        ≡ true
      → HasVersion test a expected rows
  hits-HasVersion test a expected rows h =
      elim (Option-cases (amendment.find_unique (amendment_key a) rows)) [
        | inl e ↦ absurd (ground arith)
        | inr (r, e) ↦ (r, e, ground arith, ground arith)
      ]

  -- A compare-and-set that succeeds found the expected version, and wrote the record alone.
  pub compare_and_set_sound :
      (test : Amendment → Bool) (a : Amendment) (expected : ℕ) (rows rows' : amendment.Rows)
      → compare_and_set t test a expected rows ≡ ok rows'
      → HasVersion test a expected rows × IsWritten a rows rows'
  unfolding compare_and_set
  compare_and_set_sound test a expected rows rows' h =
      let where' = λ (row : Amendment). nat_eq row.record_version expected && test row in
      let (one, k) = guard-eq-ok (nat_eq (amendment.update_many where' a rows).0 1) _ _ h in
      let e : (amendment.update_many where' a rows).1 ≡ rows' = ground arith in
      let hit : hits where' (amendment.find_unique (amendment_key a) rows) ≡ true =
        ground (arith, amendment.count-update where' a rows) in
      (
        hits-HasVersion test a expected rows hit,
        λ j. rw (← e) (rw (amendment.find-update where' a rows j) (rw hit refl)),
      )

  -- Every stored record is still there, unchanged or at a higher version.
  abbrev pub Advances : amendment.Rows → amendment.Rows → Type 0
  Advances rows rows' =
      (id : String) (c : Amendment)
      → amendment.find_unique id rows ≡ some c
      → (c' : Amendment) × (amendment.find_unique id rows' ≡ some c')
        × ((c' ≡ c) ⊎ (c.record_version < c'.record_version))

  pub written-Advances :
      (test : Amendment → Bool) (a : Amendment) (expected : ℕ) (rows rows' : amendment.Rows)
      → a.record_version ≡ expected + 1
      → compare_and_set t test a expected rows ≡ ok rows'
      → Advances rows rows'
  written-Advances test a expected rows rows' next h id c found =
      let ((r, at, version, _), written) = compare_and_set_sound test a expected rows rows' h in
      elim (Bool-cases (amendment_key a == id)) [
        | inl e ↦
            let same : amendment_key a ≡ id = (eq_iff _ _).0 e in
            let read : some r ≡ some c =
              sym at ∙ (ap (λ k. amendment.find_unique k rows) same ∙ found) in
            let stored : r ≡ c = ground arith in
            let lower : r.record_version ≡ c.record_version = ap Amendment.record_version stored in
            (a, rw (written id) (rw e refl), inr (omega arith))
        | inr e ↦ (c, rw (written id) (rw e found), inl refl)
      ]

  pub created-Advances :
      (a : Amendment) (rows rows' : amendment.Rows)
      → amendment.create a rows ≡ some rows'
      → Advances rows rows'
  created-Advances a rows rows' h id c found = elim (Bool-cases (amendment_key a == id)) [
    | inl e ↦
        let same : amendment_key a ≡ id = (eq_iff _ _).0 e in
        let vacant : none ≡ some c =
          sym (amendment.create_fresh a rows rows' h)
          ∙ (ap (λ k. amendment.find_unique k rows) same ∙ found) in
        absurd (ground arith)
    | inr e ↦ (c, rw (amendment.find-create a rows rows' id h) (rw e found), inl refl)
  ]

  -- A write of the repository that succeeds, by whichever caller; who owns the system and the roles
  -- may change at any time.
  pub data Write : ConstitutionStore t → ConstitutionStore t → Type 0 where
    creates :
        {s s' : ConstitutionStore t} (a : Amendment) → create_amendment t a s ≡ ok s' → Write s s'
    updates :
        {s s' : ConstitutionStore t} (a : Amendment) (expected : ℕ) (actor action : String)
        → update_amendment t a expected actor action s ≡ ok s'
        → Write s s'
    appends_evidence :
        {s s' : ConstitutionStore t} (e : EvidenceRecord) (a : Amendment) (expected : ℕ)
        (actor action : String)
        → append_evidence_and_update t e a expected actor action s ≡ ok s'
        → Write s s'
    appends_decision :
        {s s' : ConstitutionStore t} (d : RatificationDecision) (a : Amendment) (expected : ℕ)
        → append_decision_and_update t d a expected s ≡ ok s'
        → Write s s'
    appends_publication :
        {s s' : ConstitutionStore t} (p : PublicationRecord) (e : EvidenceRecord) (a : Amendment)
        (expected : ℕ)
        → append_publication_and_update t p e a expected s ≡ ok s'
        → Write s s'
    authority_changes :
        {s s' : ConstitutionStore t} (authority : AuthorityStore t.authority)
        → s' ≡ record s { authority = authority }
        → Write s s'

  pub data Evolves (s : ConstitutionStore t) : ConstitutionStore t → Type 0 where
    unchanged : Evolves s s
    afterwards : {s₁ s₂ : ConstitutionStore t} → Evolves s s₁ → Write s₁ s₂ → Evolves s s₂

  -- The compare-and-set inside an update, with the version that it checked and the one it wrote.
  pub record IsSwap (a : Amendment) (expected : ℕ) (test : Amendment → Bool)
      (s s' : ConstitutionStore t) : Type 0 where
    pub next : a.record_version ≡ expected + 1
    pub swapped : compare_and_set t test a expected s.amendments ≡ ok s'.amendments

  pub update_amendment-IsSwap :
      (a : Amendment) (expected : ℕ) (actor action : String) (s s' : ConstitutionStore t)
      → update_amendment t a expected actor action s ≡ ok s'
      → IsSwap a expected (λ row. true) s s'
  unfolding update_amendment
  update_amendment-IsSwap a expected actor action s s' h = ground arith

  pub append_evidence-IsSwap :
      (e : EvidenceRecord) (a : Amendment) (expected : ℕ) (actor action : String)
      (s s' : ConstitutionStore t)
      → append_evidence_and_update t e a expected actor action s ≡ ok s'
      → IsSwap a expected (λ row. true) s s'
  unfolding append_evidence_and_update
  append_evidence-IsSwap e a expected actor action s s' h = ground arith

  pub append_decision-IsSwap :
      (d : RatificationDecision) (a : Amendment) (expected : ℕ) (s s' : ConstitutionStore t)
      → append_decision_and_update t d a expected s ≡ ok s'
      → IsSwap a expected (λ row. true) s s'
  unfolding append_decision_and_update
  append_decision-IsSwap d a expected s s' h = ground arith

  pub append_publication-IsSwap :
      (p : PublicationRecord) (e : EvidenceRecord) (a : Amendment) (expected : ℕ)
      (s s' : ConstitutionStore t)
      → append_publication_and_update t p e a expected s ≡ ok s'
      → IsSwap a expected (λ row. state_eq row.state ratified) s s'
  unfolding append_publication_and_update
  append_publication-IsSwap p e a expected s s' h = ground arith
