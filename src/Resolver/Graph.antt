-- ===== src/Resolver/Graph.antt =====
-- The graph of a resolved blueprint, and that resolving ends: `resolveBlueprint` of
-- packages/blueprint-engine/src/resolver.ts.
use software_blueprint_hub.Shared.{
  String, ◌≡◌, refl, sym, ap, ◌∙◌, subst, ◌↔◌, inl, inr, Bool, true, some, List, [], ◌∷◌, ◌++◌,
  ◌==◌, eq_iff, filter, map, In, In-append_iff, In-filter_iff, In-map_iff, includes, includes_iff,
  and_parts, ok,
}
use software_blueprint_hub.Shared.Sorting.{In-sort_iff}
use software_blueprint_hub.Shared.Search.Paths.{IsGrounded, grounded}
use software_blueprint_hub.Shared.Text.{sort_texts, text_le}
use software_blueprint_hub.Resolver.{is_module, BlueprintTemplate, Requirement}
use software_blueprint_hub.Resolver.Fingerprint.{input_fingerprint}
use software_blueprint_hub.Resolver.Merge.{get}
use software_blueprint_hub.Resolver.Entries.{get-id, get-In, get-IsDistinct}
use software_blueprint_hub.Resolver.Closure.{is_required_module, required_modules}
use software_blueprint_hub.Resolver.Marked.{IsRequired}
use software_blueprint_hub.Resolver.Closed.{required_modules_iff}
use software_blueprint_hub.Resolver.Cycles.{module_successors}
use software_blueprint_hub.Resolver.Activation.{activated_templates}
use software_blueprint_hub.Resolver.Blueprint.{
  Edge, ResolvedBlueprint, Resolution, success, edges_of, edge_le, freeze_requirement,
}
use software_blueprint_hub.Resolver.Resolve.{
  ResolutionInput, check_templates, resolution_of, sorted_templates, merged_requirements,
  resolve_blueprint,
}
use software_blueprint_hub.Resolver.Resolved.{
  closed-eq-ok, IsResolved, resolve_sound, In-freeze_all_iff,
}

edges_of_iff :
    (qs : List Requirement) (e : Edge)
    → In e (edges_of qs)
      ↔ ((q : Requirement) × In q qs × (q.id ≡ e.from_id) × In e.to_id q.depends_on)
edges_of_iff [] e = (λ h. absurd h, λ (q, i, own, dep). absurd i)
edges_of_iff (x ∷ qs) e =
    let edge : String → Edge = λ d. record { from_id = x.id; to_id = d } in
    let named : String → Edge = λ z. record { from_id = z; to_id = e.to_id } in
    let (split, join) = In-append_iff (map edge x.depends_on) (edges_of qs) e in
    let (to, from) = In-map_iff edge x.depends_on e in
    let (tos, froms) = edges_of_iff qs e in
    (
      λ h. elim (split h) [
        | inl i ↦
            let (d, j, same) = to i in
            (x, inl refl, ap Edge.from_id same, rw (ap Edge.to_id same) at j)
        | inr i ↦ let (q, j, own, dep) = tos i in (q, inr j, own, dep)
      ],
      λ (q, i, own, dep). elim i [
        | inl same ↦ join (
            inl (
              from (
                e.to_id,
                subst (λ y. In e.to_id y.depends_on) (sym same) dep,
                ap named (ap Requirement.id same ∙ own),
              )))
        | inr j ↦ join (inr (froms (q, j, own, dep)))
      ],
    )

-- Where the edges of an id lead.
abbrev pub targets : List Edge → String → List String
targets edges id = map Edge.to_id (filter (λ e. e.from_id == id) edges)

IsGrounded-mono :
    (s s' : String → List String)
    → ((x y : String) → In y (s' x) → In y (s x))
    → (x : String) → IsGrounded s x
    → IsGrounded s' x
IsGrounded-mono s s' fewer x (grounded f) =
    grounded (λ y i. IsGrounded-mono s s' fewer y (f y (fewer x y i)))

module _ (le : String → String → Bool) (sha256_hex : String → String) where
  module _ (i : ResolutionInput) (b : ResolvedBlueprint) (out : List Requirement)
      (activated : List BlueprintTemplate) (rs : List Requirement)
      (made : IsResolved le sha256_hex i b out activated rs) where
    -- A frozen requirement is the stored one, with its lists sorted.
    out_sound :
        (q : Requirement)
        → In q out
        → (r : Requirement) × (get q.id rs ≡ some r)
          × (r.kind ≡ q.kind)
          × (r.required ≡ q.required)
          × ((d : String) → In d q.depends_on ↔ In d r.depends_on)
    unfolding freeze_requirement sort_texts
    out_sound q k =
        let (r, j, same) =
          (In-freeze_all_iff le sha256_hex rs q).0 (subst (λ qs. In q qs) made.frozen k) in
        let own : r.id ≡ q.id = ap Requirement.id same in
        (
          r,
          ap (λ x. get x rs) (sym own) ∙ get-IsDistinct rs r made.distinct j,
          ap Requirement.kind same,
          ap Requirement.required same,
          λ d.
              let (to, from) = In-sort_iff text_le r.depends_on d in
              let sorted : sort_texts r.depends_on ≡ q.depends_on =
                ap Requirement.depends_on same in
              (
                λ h. to (subst (λ ds. In d ds) (sym sorted) h),
                λ h. subst (λ ds. In d ds) sorted (from h),
              ),
        )

    required-In : (id : String) → IsRequired id rs → In id b.required_modules
    unfolding freeze_requirement
    required-In id (r, found, kind, required) =
        let frozen =
          subst (λ qs. In (freeze_requirement le r) qs) (sym made.frozen)
            ((In-freeze_all_iff le sha256_hex rs (freeze_requirement le r)).1
              (r, get-In id rs r found, refl)) in
        subst (λ ids. In id ids) (sym made.required_in)
          ((In-map_iff Requirement.id (filter is_required_module out) id).1 (
            freeze_requirement le r,
            (In-filter_iff is_required_module out (freeze_requirement le r)).1
                (frozen, rw (kind, required) refl),
            get-id id rs r found,
          ))

    -- A dependency of a required module is that of the stored one.
    required_dependency :
        (q : Requirement) (d : String)
        → In q out
        → is_required_module q ≡ true
        → In d q.depends_on
        → IsRequired q.id rs
          × IsRequired d rs
          × ((r : Requirement) × (get q.id rs ≡ some r) × In d r.depends_on)
    required_dependency q d k needed dep =
        let (r, found, kind, required, same) = out_sound q k in
        let (is_mod, is_req) = and_parts (is_module q.kind) q.required needed in
        let as_module : is_module r.kind ≡ true = ap is_module kind ∙ is_mod in
        let here : IsRequired q.id rs = (r, found, as_module, required ∙ is_req) in
        let below = (same d).0 dep in
        (here, made.settled q.id here r d found as_module below, (r, found, below))

    edge_sound :
        (e : Edge)
        → In e b.dependency_edges
        → (q : Requirement) × In q out
          × (is_required_module q ≡ true)
          × (q.id ≡ e.from_id)
          × In e.to_id q.depends_on
    unfolding edge_le
    edge_sound e k =
        let sorted = subst (λ es. In e es) made.edges_in k in
        let listed =
          (In-sort_iff (edge_le le) (edges_of (filter is_required_module out)) e).0 sorted in
        let (q, j, own, dep) = (edges_of_iff (filter is_required_module out) e).0 listed in
        let (inside, needed) = (In-filter_iff is_required_module out q).0 j in
        (q, inside, needed, own, dep)

    target_sound :
        (x y : String) → In y (targets b.dependency_edges x) → In y (module_successors rs x)
    unfolding module_successors sort_texts
    target_sound x y k =
        let (e, j, to) =
          (In-map_iff Edge.to_id (filter (λ a. a.from_id == x) b.dependency_edges) y).0 k in
        let (listed, from) = (In-filter_iff (λ a. a.from_id == x) b.dependency_edges e).0 j in
        let (q, inside, needed, own, dep) = edge_sound e listed in
        let (here, there, (r, found, below)) = required_dependency q e.to_id inside needed dep in
        let start : get x rs ≡ some r =
          ap (λ k. get k rs) (sym (own ∙ (eq_iff e.from_id x).0 from)) ∙ found in
        let wanted : IsRequired y rs = subst (λ k. IsRequired k rs) to there in
        (In-filter_iff (includes (required_modules rs)) _ y).1 (
          rw start
              ((In-sort_iff text_le r.depends_on y).1 (subst (λ k. In k r.depends_on) to below)),
          (includes_iff (required_modules rs) y).1
              ((required_modules_iff rs y made.distinct).1 wanted),
        )

    target-In : (x y : String) → In y (targets b.dependency_edges x) → In y (required_modules rs)
    unfolding module_successors
    target-In x y k =
        (includes_iff (required_modules rs) y).0
          ((In-filter_iff (includes (required_modules rs)) _ y).0 (target_sound x y k)).1

  -- In a resolved blueprint, each dependency of a required module is a required module, and is an edge
  -- of the blueprint.
  pub resolve_closed :
      (i : ResolutionInput) (b : ResolvedBlueprint) (out : List Requirement) (q : Requirement)
      (d : String)
      → resolve_blueprint le sha256_hex i ≡ ok (success b out)
      → In q out
      → is_required_module q ≡ true
      → In d q.depends_on
      → In d b.required_modules × In (record { from_id = q.id; to_id = d }) b.dependency_edges
  unfolding edge_le
  resolve_closed i b out q d h k needed dep =
      let (activated, rs, made) = resolve_sound le sha256_hex i b out h in
      let (here, there, below) = required_dependency i b out activated rs made q d k needed dep in
      let e : Edge = record { from_id = q.id; to_id = d } in
      (
        required-In i b out activated rs made d there,
        subst (λ es. In e es) (sym made.edges_in)
            ((In-sort_iff (edge_le le) (edges_of (filter is_required_module out)) e).1 (
              (edges_of_iff (filter is_required_module out) e).1
                (q, (In-filter_iff is_required_module out q).1 (k, needed), refl, dep))),
      )

  -- The edges of a resolved blueprint have no cycle: every path along them ends.
  pub resolve-IsGrounded :
      (i : ResolutionInput) (b : ResolvedBlueprint) (out : List Requirement) (id : String)
      → resolve_blueprint le sha256_hex i ≡ ok (success b out)
      → IsGrounded (targets b.dependency_edges) id
  resolve-IsGrounded i b out id h =
      let (activated, rs, made) = resolve_sound le sha256_hex i b out h in
      let step = target_sound i b out activated rs made in
      grounded (λ y k.
        let inside = target-In i b out activated rs made id y k in
        IsGrounded-mono (module_successors rs) (targets b.dependency_edges) step y
          (made.acyclic y inside))

  -- Resolving ends: for an input whose profile, templates and activations are accepted it returns a
  -- blueprint or the conflicts.
  pub resolve_ends :
      (i : ResolutionInput) (activated : List BlueprintTemplate)
      → (i.profile.schema_version == "1.0.0") ≡ true
      → check_templates [] i.templates ≡ ok tt
      → activated_templates i.profile (sorted_templates le i) ≡ ok activated
      → (r : Resolution) × (resolve_blueprint le sha256_hex i ≡ ok r)
  unfolding resolve_blueprint
  resolve_ends i activated version valid active =
      let (s, ended, w, found, result) =
        closed-eq-ok le sha256_hex i activated (merged_requirements le sha256_hex activated) in
      let r =
        resolution_of le sha256_hex i.profile
          (input_fingerprint le sha256_hex i.profile (sorted_templates le i)) activated
          s.requirements (s.conflicts ++ w.log.conflicts) in
      (r, rw (version, valid, active) result)
