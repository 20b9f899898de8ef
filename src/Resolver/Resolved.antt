-- ===== src/Resolver/Resolved.antt =====
-- What a resolution guarantees: `resolveBlueprint` of packages/blueprint-engine/src/resolver.ts.
use software_blueprint_hub.Shared.{
  String, ◌≡◌, refl, sym, ap, ◌∙◌, subst, ◌↔◌, inl, inr, Bool, some, List, [], ◌∷◌, ◌++◌, ◌==◌,
  filter, map, In, In-map_iff, append-eq-nil, arith, Result, ok, >>=-eq-ok, guard-eq-ok,
}
use software_blueprint_hub.Shared.Sorting.{sort, In-sort_iff}
use software_blueprint_hub.Shared.Search.{Walk}
use software_blueprint_hub.Shared.Search.Paths.{IsGrounded}
use software_blueprint_hub.Shared.Text.{sort_texts, text_le}
use software_blueprint_hub.Resolver.{
  TemplateRequirement, BlueprintTemplate, Requirement, ResolutionConflict,
}
use software_blueprint_hub.Resolver.Versions.{by_key}
use software_blueprint_hub.Resolver.Fingerprint.{input_fingerprint}
use software_blueprint_hub.Resolver.Merge.{get, Resolving, merge_templates}
use software_blueprint_hub.Resolver.Entries.{get-In, IsDistinct}
use software_blueprint_hub.Resolver.Growth.{Honours, Honours-IsStronger}
use software_blueprint_hub.Resolver.Merged.{merge_templates-IsDistinct, merge_templates-Honours}
use software_blueprint_hub.Resolver.Closure.{
  is_required_module, required_modules, dependency_closure,
}
use software_blueprint_hub.Resolver.Marked.{IsRequired}
use software_blueprint_hub.Resolver.Closed.{IsSettled, dependency_closure_sound}
use software_blueprint_hub.Resolver.Ended.{dependency_closure-some}
use software_blueprint_hub.Resolver.Cycles.{CycleLog, module_successors, cycle_search}
use software_blueprint_hub.Resolver.Acyclic.{cycle_search_iff}
use software_blueprint_hub.Resolver.Activation.{activated_templates}
use software_blueprint_hub.Resolver.Blueprint.{
  ResolvedBlueprint, success, edges_of, edge_le, freeze_requirement, freeze_all, blueprint_of,
}
use software_blueprint_hub.Resolver.Resolve.{
  ResolutionInput, check_templates, resolution_of, closed, sorted_templates, merged_requirements,
  resolve_blueprint,
}

module _ (le : String → String → Bool) (sha256_hex : String → String) where
  -- The result of a closure is always one of its steps: neither step runs out of fuel.
  pub closed-eq-ok :
      (i : ResolutionInput) (activated : List BlueprintTemplate) (s : Resolving)
      → (s' : Resolving) × (dependency_closure le sha256_hex s ≡ some s')
        × (w : Walk CycleLog) × (cycle_search le sha256_hex s'.requirements ≡ some w)
        × (closed le sha256_hex i.profile
              (input_fingerprint le sha256_hex i.profile (sorted_templates le i))
              activated
              (dependency_closure le sha256_hex s)
            ≡ ok (
                resolution_of le sha256_hex i.profile
                  (input_fingerprint le sha256_hex i.profile (sorted_templates le i))
                  activated
                  s'.requirements
                  (s'.conflicts ++ w.log.conflicts)))
  closed-eq-ok i activated s =
      let (s', e) = dependency_closure-some le sha256_hex s in
      let (w, f, decides) = cycle_search_iff le sha256_hex s'.requirements in
      (s', e, w, f, rw e (rw f refl))

  -- A blueprint, the requirements that it was made of, and how they came about.
  pub record IsResolved (i : ResolutionInput) (b : ResolvedBlueprint) (out : List Requirement)
      (activated : List BlueprintTemplate) (rs : List Requirement) : Type 0 where
    pub active : activated_templates i.profile (sorted_templates le i) ≡ ok activated
    pub distinct : IsDistinct rs
    pub honoured :
        (t : BlueprintTemplate) (r : TemplateRequirement)
        → In t activated
        → In r t.requirements
        → (q : Requirement) × (get r.id rs ≡ some q) × Honours t r q
    pub settled : (id : String) → IsRequired id rs → IsSettled id rs
    pub acyclic : (id : String) → In id (required_modules rs) → IsGrounded (module_successors rs) id
    pub frozen : out ≡ freeze_all le rs
    pub required_in : b.required_modules ≡ map Requirement.id (filter is_required_module out)
    pub edges_in : b.dependency_edges ≡ sort (edge_le le) (edges_of (filter is_required_module out))

  resolution_of-eq-success :
      (i : ResolutionInput) (fingerprint : String) (activated : List BlueprintTemplate)
      (rs : List Requirement) (conflicts : List ResolutionConflict) (b : ResolvedBlueprint)
      (out : List Requirement)
      → resolution_of le sha256_hex i.profile fingerprint activated rs conflicts ≡ success b out
      → (conflicts ≡ [])
        × (blueprint_of le i.profile fingerprint activated (freeze_all le rs) ≡ b)
        × (freeze_all le rs ≡ out)
  resolution_of-eq-success i fingerprint activated rs [] b out h =
      (refl, ground arith, ground arith)
  resolution_of-eq-success i fingerprint activated rs (c ∷ cs) b out h = absurd (ground arith)

  blueprint_fields :
      (i : ResolutionInput) (fingerprint : String) (activated : List BlueprintTemplate)
      (b : ResolvedBlueprint) (out : List Requirement)
      → blueprint_of le i.profile fingerprint activated out ≡ b
      → (b.required_modules ≡ map Requirement.id (filter is_required_module out))
        × (b.dependency_edges ≡ sort (edge_le le) (edges_of (filter is_required_module out)))
  unfolding blueprint_of
  blueprint_fields i fingerprint activated b out h =
      (sym (ap ResolvedBlueprint.required_modules h), sym (ap ResolvedBlueprint.dependency_edges h))

  pub resolve_sound :
      (i : ResolutionInput) (b : ResolvedBlueprint) (out : List Requirement)
      → resolve_blueprint le sha256_hex i ≡ ok (success b out)
      → (activated : List BlueprintTemplate) × (rs : List Requirement) × IsResolved i b out
          activated rs
  unfolding resolve_blueprint merged_requirements
  resolve_sound i b out h =
      let fingerprint = input_fingerprint le sha256_hex i.profile (sorted_templates le i) in
      let (version, h1) = guard-eq-ok (i.profile.schema_version == "1.0.0") _ _ h in
      let (one, valid, h2) = >>=-eq-ok (check_templates [] i.templates) _ h1 in
      let (activated, active, h3) =
        >>=-eq-ok (activated_templates i.profile (sorted_templates le i)) _ h2 in
      let start : Resolving = record { requirements = []; conflicts = [] } in
      let merged = merge_templates le sha256_hex activated start in
      let (s, ended, w, searched_, result) = closed-eq-ok i activated merged in
      let (w', found, decides) = cycle_search_iff le sha256_hex s.requirements in
      let same_walk : w ≡ w' = ground arith in
      let success_of : resolution_of le sha256_hex i.profile fingerprint activated s.requirements
            (s.conflicts ++ w.log.conflicts)
          ≡ success b out =
        ground arith in
      let (none_left, made, same_out) =
        resolution_of-eq-success i fingerprint activated s.requirements _ b out success_of in
      let (quiet, no_cycle) = (append-eq-nil s.conflicts w.log.conflicts).0 none_left in
      let distinct = merge_templates-IsDistinct le sha256_hex activated start tt in
      let closure = dependency_closure_sound le sha256_hex merged s distinct ended quiet in
      let (empty, grown, honoured) =
        merge_templates-Honours le sha256_hex activated start closure.quiet in
      let (required_in, edges_in) =
        blueprint_fields i fingerprint activated b out (rw same_out at made) in
      (
        activated,
        s.requirements,
        record {
          active = active;
          distinct = closure.marked.distinct distinct;
          honoured = λ t r j k.
              let (a, e, asked) = honoured t r j k in
              let (q, there, stronger, same) = closure.marked.kept r.id a e in
              (q, there, Honours-IsStronger t r a q asked stronger);
          settled =
              λ id k. elim (closure.settled id k) [ inl j ↦ absurd j | inr settled ↦ settled ];
          acyclic = decides.0 (sym (ap (λ v. v.log.conflicts) same_walk) ∙ no_cycle);
          frozen = sym same_out;
          required_in = required_in;
          edges_in = edges_in;
        },
      )

  pub In-freeze_all_iff :
      (rs : List Requirement) (q : Requirement)
      → In q (freeze_all le rs) ↔ ((r : Requirement) × In r rs × (freeze_requirement le r ≡ q))
  unfolding freeze_all
  In-freeze_all_iff rs q =
      let (to, from) = In-sort_iff (by_key le Requirement.id) (map (freeze_requirement le) rs) q in
      let (out, back) = In-map_iff (freeze_requirement le) rs q in
      (λ h. out (to h), λ k. from (back k))

  freeze-Honours :
      (t : BlueprintTemplate) (r : TemplateRequirement) (q : Requirement)
      → Honours t r q
      → Honours t r (freeze_requirement le q)
  unfolding freeze_requirement sort_texts
  freeze-Honours t r q h = record {
    same_id = h.same_id;
    same_kind = h.same_kind;
    as_required = h.as_required;
    as_deep = h.as_deep;
    as_constrained = h.as_constrained;
    tags_kept = λ x i. (In-sort_iff text_le q.tags x).1 (h.tags_kept x i);
    dependencies_kept = λ x i. (In-sort_iff text_le q.depends_on x).1 (h.dependencies_kept x i);
    sourced = (In-sort_iff _ q.sources _).1 h.sourced;
  }

  -- When a blueprint is resolved, what an activated template asks of a requirement is part of the
  -- resolved requirement of that id: its kind, whether it is required, at least its depth, its
  -- constraint, its tags, its dependencies, and the template among its sources.
  pub resolve-Honours :
      (i : ResolutionInput) (b : ResolvedBlueprint) (out : List Requirement)
      (activated : List BlueprintTemplate) (t : BlueprintTemplate) (r : TemplateRequirement)
      → resolve_blueprint le sha256_hex i ≡ ok (success b out)
      → activated_templates i.profile (sorted_templates le i) ≡ ok activated
      → In t activated
      → In r t.requirements
      → (q : Requirement) × In q out × Honours t r q
  resolve-Honours i b out activated t r h active j k =
      let (activated', rs, made) = resolve_sound i b out h in
      let same : activated ≡ activated' = ok_inj (sym active ∙ made.active) in
      let (q, there, asked) = made.honoured t r (subst (λ ts. In t ts) same j) k in
      (
        freeze_requirement le q,
        subst (λ qs. In (freeze_requirement le q) qs) (sym made.frozen)
            ((In-freeze_all_iff rs (freeze_requirement le q)).1 (q, get-In r.id rs q there, refl)),
        freeze-Honours t r q asked,
      )
    where
      ok_inj : {x y : List BlueprintTemplate} → Result.ok x ≡ Result.ok y → x ≡ y
      ok_inj e = ground arith
