-- ===== src/Constitution/Repository/Concurrency.antt =====
-- Callers that interleave: a read, other callers' writes, and an update by the version that was read.
use software_blueprint_hub.Shared.{
  ℕ, ◌+◌, ◌<◌, ◌≡◌, refl, sym, ap, ◌∙◌, ◌⊎◌, inl, inr, Bool, true, ◌&&◌, some, eq_iff, arith, Error,
  Result-cases, ok, err, nat_eq, record_version_conflict,
}
use software_blueprint_hub.Constitution.Model.{Amendment}
use software_blueprint_hub.Constitution.Repository.{
  ConstitutionTables, ConstitutionStore, amendment_key, compare_and_set, find_amendment,
  create_amendment,
}
use software_blueprint_hub.Constitution.Repository.Versions.{
  Advances, written-Advances, created-Advances, Write, creates, updates, appends_evidence,
  appends_decision, appends_publication, authority_changes, Evolves, unchanged, afterwards, IsSwap,
  compare_and_set_sound, update_amendment-IsSwap, append_evidence-IsSwap, append_decision-IsSwap,
  append_publication-IsSwap,
}
use software_blueprint_hub.Constitution.Repository.Updates.{
  Update, written_by, row_test, apply_update, apply_update-IsSwap,
}

module _ (t : ConstitutionTables) where
  open t use {amendment}

  create_amendment-created :
      (a : Amendment) (s s' : ConstitutionStore t)
      → create_amendment t a s ≡ ok s'
      → amendment.create a s.amendments ≡ some s'.amendments
  unfolding create_amendment
  create_amendment-created a s s' h = ground arith

  swap-Advances :
      (a : Amendment) (expected : ℕ) (test : Amendment → Bool) (s s' : ConstitutionStore t)
      → IsSwap t a expected test s s'
      → Advances t s.amendments s'.amendments
  swap-Advances a expected test s s' w =
      written-Advances t test a expected s.amendments s'.amendments w.next w.swapped

  Write-Advances :
      {s s' : ConstitutionStore t} → Write t s s' → Advances t s.amendments s'.amendments
  Write-Advances {s} {s'} (creates a h) =
      created-Advances t a s.amendments s'.amendments (create_amendment-created a s s' h)
  Write-Advances {s} {s'} (updates a n actor action h) =
      swap-Advances a n _ s s' (update_amendment-IsSwap t a n actor action s s' h)
  Write-Advances {s} {s'} (appends_evidence e a n actor action h) =
      swap-Advances a n _ s s' (append_evidence-IsSwap t e a n actor action s s' h)
  Write-Advances {s} {s'} (appends_decision d a n h) =
      swap-Advances a n _ s s' (append_decision-IsSwap t d a n s s' h)
  Write-Advances {s} {s'} (appends_publication p e a n h) =
      swap-Advances a n _ s s' (append_publication-IsSwap t p e a n s s' h)
  Write-Advances {s} {s'} (authority_changes authority e) = λ id c found. (c, rw e found, inl refl)

  -- Whatever is written, no stored amendment is lost, none goes back to an older version, and one
  -- whose version is unchanged is unchanged.
  pub Evolves-Advances :
      {s s' : ConstitutionStore t} → Evolves t s s' → Advances t s.amendments s'.amendments
  Evolves-Advances unchanged id c found = (c, found, inl refl)
  Evolves-Advances (afterwards e w) id c found =
      let (d, there, first_part) = Evolves-Advances e id c found in
      let (c', here, second_part) = Write-Advances w id d there in
      (c', here, advance_trans c d c' first_part second_part)
    where
      advance_trans :
          (x y z : Amendment)
          → (y ≡ x) ⊎ (x.record_version < y.record_version)
          → (z ≡ y) ⊎ (y.record_version < z.record_version)
          → (z ≡ x) ⊎ (x.record_version < z.record_version)
      advance_trans x y z (inl p) (inl q) = inl (q ∙ p)
      advance_trans x y z (inl p) (inr q) = inr (rw (ap Amendment.record_version p) at q)
      advance_trans x y z (inr p) (inl q) = inr (rw (ap Amendment.record_version q) p)
      advance_trans x y z (inr p) (inr q) = inr (omega arith)

  -- An update that succeeds by the version of an earlier read finds the very record that was read,
  -- whatever other callers wrote in between: the decision that the caller took on it is not stale.
  pub swap_reads_current :
      (a c : Amendment) (expected : ℕ) (test : Amendment → Bool) (s s₁ s₂ : ConstitutionStore t)
      → find_amendment t (amendment_key a) s ≡ some c
      → c.record_version ≡ expected
      → Evolves t s s₁
      → IsSwap t a expected test s₁ s₂
      → (find_amendment t (amendment_key a) s₁ ≡ some c) × (test c ≡ true)
  unfolding find_amendment
  swap_reads_current a c expected test s s₁ s₂ found version e w =
      let (c', there, moved) = Evolves-Advances e (amendment_key a) c found in
      let ((r, at, current, passed), _) =
        compare_and_set_sound t test a expected s₁.amendments s₂.amendments w.swapped in
      let read : some r ≡ some c' = sym at ∙ there in
      let same : r ≡ c' = ground arith in
      elim moved [
        | inl p ↦ let q : r ≡ c = same ∙ p in (rw at (ap some q), rw q at passed)
        | inr later ↦
            let v : r.record_version ≡ c'.record_version = ap Amendment.record_version same in
            absurd (omega arith)
      ]

  compare_and_set-conflict :
      (test : Amendment → Bool) (b r : Amendment) (expected : ℕ) (rows : amendment.Rows)
      → amendment.find_unique (amendment_key b) rows ≡ some r
      → expected < r.record_version
      → compare_and_set t test b expected rows
        ≡ err (record_version_conflict (amendment_key b) expected)
  unfolding compare_and_set
  compare_and_set-conflict test b r expected rows found later =
      let where' = λ (row : Amendment). nat_eq row.record_version expected && test row in
      ground (arith, amendment.count-update where' b rows)

  -- After a write of the version that follows `expected`, a compare-and-set by `expected` fails.
  later-conflict :
      (a b : Amendment) (expected : ℕ) (test test' : Amendment → Bool)
      (s₀ s₁ s₂ : ConstitutionStore t)
      → amendment_key a ≡ amendment_key b
      → IsSwap t a expected test s₀ s₁
      → Evolves t s₁ s₂
      → compare_and_set t test' b expected s₂.amendments
        ≡ err (record_version_conflict (amendment_key b) expected)
  later-conflict a b expected test test' s₀ s₁ s₂ same w e =
      let (_, written) =
        compare_and_set_sound t test a expected s₀.amendments s₁.amendments w.swapped in
      let stored : amendment.find_unique (amendment_key b) s₁.amendments ≡ some a =
        rw (written (amendment_key b)) (rw ((eq_iff _ _).1 same) refl) in
      let (c', there, moved) = Evolves-Advances e (amendment_key b) a stored in
      let later : expected < c'.record_version = elim moved [
        | inl p ↦
            let v : c'.record_version ≡ a.record_version = ap Amendment.record_version p in
            let n : a.record_version ≡ expected + 1 = w.next in omega arith
        | inr higher ↦ let n : a.record_version ≡ expected + 1 = w.next in omega arith
      ] in
      compare_and_set-conflict test' b c' expected s₂.amendments there later

  -- No lost update: when an update of an amendment has succeeded, by whichever of the four methods,
  -- every other update of that amendment that expects the same version is refused, by whichever of
  -- them it comes and whatever is written in between; its compare-and-set gives the version conflict.
  pub no_lost_update :
      (first second : Update) (expected : ℕ) (s₀ s₁ s₂ : ConstitutionStore t)
      → amendment_key (written_by first) ≡ amendment_key (written_by second)
      → apply_update t first expected s₀ ≡ ok s₁
      → Evolves t s₁ s₂
      → ((e : Error) × (apply_update t second expected s₂ ≡ err e))
        × (compare_and_set t (row_test second) (written_by second) expected s₂.amendments
            ≡ err (record_version_conflict (amendment_key (written_by second)) expected))
  no_lost_update first second expected s₀ s₁ s₂ same done e =
      let conflict =
        later-conflict (written_by first) (written_by second) expected (row_test first)
          (row_test second) s₀ s₁ s₂ same (apply_update-IsSwap t first expected s₀ s₁ done) e in
      (
        elim (Result-cases (apply_update t second expected s₂)) [
          | inl (s', ok') ↦
              let w = apply_update-IsSwap t second expected s₂ s' ok' in
              let swapped = w.swapped in absurd cc
          | inr refused ↦ refused
        ],
        conflict,
      )
