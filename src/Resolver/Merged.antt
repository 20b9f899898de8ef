-- ===== src/Resolver/Merged.antt =====
-- What the merged requirements are, when merging found no conflict.
use software_blueprint_hub.Shared.{
  String, ◌≡◌, refl, sym, ap, ◌∙◌, ◌⊎◌, inl, inr, Bool, true, Option, none, some, List, [],
  In-dedup_iff, ◌∷◌, ◌==◌, eq_iff, In, In-append_iff, append-eq-nil, arith, Bool-cases,
}
use software_blueprint_hub.Shared.Sorting.{sort, In-sort_iff}
use software_blueprint_hub.Resolver.{
  RequirementKind, module_kind, gate_kind, basic, default, TemplateRequirement, BlueprintTemplate,
  Requirement,
}
use software_blueprint_hub.Resolver.Fingerprint.{requirement_le}
use software_blueprint_hub.Resolver.Merge.{
  get, put, same_kind, source_of, fresh, merged, merged_constraint, Resolving, constraint_conflicts,
  merge_into, merge_requirement, merge_all, merge_templates,
}
use software_blueprint_hub.Resolver.Entries.{
  get-id, get-append, get-append-none, get-put-same, IsDistinct, put-IsDistinct, append-IsDistinct,
}
use software_blueprint_hub.Resolver.Growth.{
  IsStronger-refl, Grows, Grows-refl, Grows-trans, put-Grows, Honours, Honours-IsStronger,
  In-add_all, max_depth-le, merged-IsStronger,
}

fresh-Honours : (t : BlueprintTemplate) (r : TemplateRequirement) → Honours t r (fresh t r)
unfolding fresh
fresh-Honours t r = record {
  same_id = refl;
  same_kind = refl;
  as_required = elim (Bool-cases (default r.required true)) [ inl e ↦ inr e | inr e ↦ inl e ];
  as_deep = omega arith;
  as_constrained = inr refl;
  tags_kept = λ x i. (In-dedup_iff (default r.tags []) x).1 i;
  dependencies_kept = λ x i. (In-dedup_iff (default r.depends_on []) x).1 i;
  sourced = inl refl;
}

get-fresh :
    (t : BlueprintTemplate) (r : TemplateRequirement) → get r.id (fresh t r ∷ []) ≡ some (fresh t r)
unfolding get fresh
get-fresh t r = rw ((eq_iff r.id r.id).1 refl) refl

same_kind-eq : (a b : RequirementKind) → same_kind a b ≡ true → a ≡ b
same_kind-eq module_kind module_kind h = refl
same_kind-eq gate_kind gate_kind h = refl
same_kind-eq module_kind gate_kind h = absurd (ground arith)
same_kind-eq gate_kind module_kind h = absurd (ground arith)

module _ (le : String → String → Bool) (sha256_hex : String → String) where
  constraints-agree :
      (t : BlueprintTemplate) (r : TemplateRequirement) (a : Requirement)
      (current incoming : Option String)
      → constraint_conflicts le sha256_hex t r a current incoming ≡ []
      → (incoming ≡ none) ⊎ (merged_constraint current incoming ≡ incoming)
  constraints-agree t r a none incoming h = inr refl
  constraints-agree t r a (some c) none h = inl refl
  constraints-agree t r a (some c) (some d) h = elim (Bool-cases (c == d)) [
    | inl e ↦ inr (ap some ((eq_iff c d).0 e))
    | inr e ↦ absurd (ground arith)
  ]

  merged-Honours :
      (t : BlueprintTemplate) (r : TemplateRequirement) (a : Requirement)
      → a.id ≡ r.id
      → same_kind a.kind r.kind ≡ true
      → constraint_conflicts le sha256_hex t r a a.constraint r.constraint ≡ []
      → Honours t r (merged t r a)
  unfolding merged
  merged-Honours t r a id kind agree = record {
    same_id = id;
    same_kind = same_kind-eq a.kind r.kind kind;
    as_required = elim (Bool-cases (default r.required true)) [
      | inl e ↦ inr (ground arith)
      | inr e ↦ inl e
    ];
    as_deep = (max_depth-le a.depth (default r.depth basic)).1;
    as_constrained = constraints-agree t r a a.constraint r.constraint agree;
    tags_kept = λ x i. In-add_all (default r.tags []) a.tags x (inl i);
    dependencies_kept = λ x i. In-add_all (default r.depends_on []) a.depends_on x (inl i);
    sourced = (In-append_iff a.sources (source_of t r ∷ []) (source_of t r)).1 (inr (inl refl));
  }

  -- What one merged requirement leaves.
  pub record IsMerged (t : BlueprintTemplate) (r : TemplateRequirement) (s s' : Resolving)
      : Type 0 where
    pub quiet : s.conflicts ≡ []
    pub grown : Grows s.requirements s'.requirements
    pub honoured : (b : Requirement) × (get r.id s'.requirements ≡ some b) × Honours t r b

  merge_into-IsMerged :
      (t : BlueprintTemplate) (r : TemplateRequirement) (o : Option Requirement) (s : Resolving)
      → get r.id s.requirements ≡ o
      → (merge_into le sha256_hex t r o s).conflicts ≡ []
      → IsMerged t r s (merge_into le sha256_hex t r o s)
  unfolding fresh
  merge_into-IsMerged t r none s found quiet = record {
    quiet = quiet;
    grown = λ id a h. (a, get-append id s.requirements (fresh t r ∷ []) a h, IsStronger-refl a);
    honoured = (
      fresh t r,
      get-append-none r.id s.requirements (fresh t r ∷ []) found ∙ get-fresh t r,
      fresh-Honours t r,
    );
  }
  merge_into-IsMerged t r (some a) s found quiet = elim (Bool-cases (same_kind a.kind r.kind)) [
    | inl e ↦
        let none_found = (append-eq-nil s.conflicts _).0 (rw e at quiet) in
        let id = get-id r.id s.requirements a found in
        let here : get (merged t r a).id s.requirements ≡ some a =
          ap (λ j. get j s.requirements) ((merged-IsStronger t r a).same_id ∙ id) ∙ found in
        rw e (record {
          quiet = none_found.0;
          grown = put-Grows (merged t r a) a s.requirements here (merged-IsStronger t r a);
          honoured = (
            merged t r a,
            ap (λ j. get j (put (merged t r a) s.requirements))
                  (sym ((merged-IsStronger t r a).same_id ∙ id))
                ∙ get-put-same (merged t r a) a s.requirements here,
            merged-Honours t r a id e none_found.1,
          );
        })
    | inr e ↦
        let none_found = (append-eq-nil s.conflicts _).0 (rw e at quiet) in
        absurd (ground (arith, none_found.1))
  ]

  pub merge_requirement-IsMerged :
      (t : BlueprintTemplate) (r : TemplateRequirement) (s : Resolving)
      → (merge_requirement le sha256_hex t r s).conflicts ≡ []
      → IsMerged t r s (merge_requirement le sha256_hex t r s)
  unfolding merge_requirement
  merge_requirement-IsMerged t r s quiet =
      merge_into-IsMerged t r (get r.id s.requirements) s refl quiet

  merge_into-IsDistinct :
      (t : BlueprintTemplate) (r : TemplateRequirement) (o : Option Requirement) (s : Resolving)
      → get r.id s.requirements ≡ o
      → IsDistinct s.requirements
      → IsDistinct (merge_into le sha256_hex t r o s).requirements
  unfolding fresh
  merge_into-IsDistinct t r none s e d = append-IsDistinct s.requirements (fresh t r) e d
  merge_into-IsDistinct t r (some a) s e d = elim (Bool-cases (same_kind a.kind r.kind)) [
    | inl k ↦ rw k (put-IsDistinct (merged t r a) s.requirements d)
    | inr k ↦ rw k d
  ]

  merge_requirement-IsDistinct :
      (t : BlueprintTemplate) (r : TemplateRequirement) (s : Resolving)
      → IsDistinct s.requirements
      → IsDistinct (merge_requirement le sha256_hex t r s).requirements
  unfolding merge_requirement
  merge_requirement-IsDistinct t r s d =
      merge_into-IsDistinct t r (get r.id s.requirements) s refl d

  merge_all-IsDistinct :
      (t : BlueprintTemplate) (rs : List TemplateRequirement) (s : Resolving)
      → IsDistinct s.requirements
      → IsDistinct (merge_all le sha256_hex t rs s).requirements
  merge_all-IsDistinct t [] s d = d
  merge_all-IsDistinct t (r ∷ rs) s d =
      merge_all-IsDistinct t rs (merge_requirement le sha256_hex t r s)
        (merge_requirement-IsDistinct t r s d)

  pub merge_templates-IsDistinct :
      (ts : List BlueprintTemplate) (s : Resolving)
      → IsDistinct s.requirements
      → IsDistinct (merge_templates le sha256_hex ts s).requirements
  merge_templates-IsDistinct [] s d = d
  merge_templates-IsDistinct (t ∷ ts) s d =
      merge_templates-IsDistinct ts
        (merge_all le sha256_hex t (sort (requirement_le le) t.requirements) s)
        (merge_all-IsDistinct t (sort (requirement_le le) t.requirements) s d)

  -- What several merged requirements leave: no conflict before, and stronger requirements, among
  -- them one that honours each of the list.
  pub record IsMergedAll (t : BlueprintTemplate) (rs : List TemplateRequirement) (s s' : Resolving)
      : Type 0 where
    pub quiet : s.conflicts ≡ []
    pub grown : Grows s.requirements s'.requirements
    pub honoured :
        (r : TemplateRequirement)
        → In r rs
        → (b : Requirement) × (get r.id s'.requirements ≡ some b) × Honours t r b

  merge_all-IsMergedAll :
      (t : BlueprintTemplate) (rs : List TemplateRequirement) (s : Resolving)
      → (merge_all le sha256_hex t rs s).conflicts ≡ []
      → IsMergedAll t rs s (merge_all le sha256_hex t rs s)
  merge_all-IsMergedAll t [] s quiet = record {
    quiet = quiet;
    grown = Grows-refl s.requirements;
    honoured = λ r i. absurd i;
  }
  merge_all-IsMergedAll t (r ∷ rs) s quiet =
      let next = merge_requirement le sha256_hex t r s in
      let later = merge_all-IsMergedAll t rs next quiet in
      let first = merge_requirement-IsMerged t r s later.quiet in
      record {
        quiet = first.quiet;
        grown =
            Grows-trans s.requirements next.requirements
              (merge_all le sha256_hex t rs next).requirements first.grown later.grown;
        honoured = λ q. elim [
          | inl e ↦
              let (a, found, h) = first.honoured in
              let (b, there, k) = later.grown r.id a found in
              rw (← e) (b, there, Honours-IsStronger t r a b h k)
          | inr i ↦ later.honoured q i
        ];
      }

  -- When merging the templates left no conflict, each requirement of each template is honoured.
  pub merge_templates-Honours :
      (ts : List BlueprintTemplate) (s : Resolving)
      → (merge_templates le sha256_hex ts s).conflicts ≡ []
      → (s.conflicts ≡ [])
        × Grows s.requirements (merge_templates le sha256_hex ts s).requirements
        × ((t : BlueprintTemplate) (r : TemplateRequirement)
            → In t ts
            → In r t.requirements
            → (b : Requirement) × (get r.id (merge_templates le sha256_hex ts s).requirements
                ≡ some b)
              × Honours t r b)
  merge_templates-Honours [] s quiet = (quiet, Grows-refl s.requirements, λ t r i. absurd i)
  merge_templates-Honours (t ∷ ts) s quiet =
      let rs = sort (requirement_le le) t.requirements in
      let next = merge_all le sha256_hex t rs s in
      let (still, grown, honoured) = merge_templates-Honours ts next quiet in
      let first = merge_all-IsMergedAll t rs s still in
      (
        first.quiet,
        Grows-trans s.requirements next.requirements
            (merge_templates le sha256_hex ts next).requirements first.grown grown,
        λ u r i j. elim i [
          | inl e ↦
              let k : In r t.requirements = rw e j in
              let (a, found, h) =
                first.honoured r ((In-sort_iff (requirement_le le) t.requirements r).1 k) in
              let (b, there, stronger) = grown r.id a found in
              (b, there, rw e at (Honours-IsStronger t r a b h stronger))
          | inr l ↦ honoured u r l j
        ],
      )
