-- ===== src/Resolver/Growth.antt =====
-- What merging keeps: a requirement only becomes stronger.
use software_blueprint_hub.Shared.{
  ◌≤◌, String, ◌≡◌, refl, sym, ap, ◌∙◌, ◌⊎◌, inl, inr, true, false, none, some, List, [], ◌∷◌, ◌++◌,
  ◌==◌, eq_iff, if◌then◌else◌, In, In-append_iff, includes, includes_iff, arith, Bool-cases,
  Option-cases,
}
use software_blueprint_hub.Resolver.{
  RequirementDepth, basic, depth_rank, default, TemplateRequirement, BlueprintTemplate,
  RequirementSource, Requirement,
}
use software_blueprint_hub.Resolver.Merge.{get, put, add_all, max_depth, source_of, merged}
use software_blueprint_hub.Resolver.Entries.{get-put-same, get-put-other}

-- The requirement keeps its id and kind, and nothing that it asks is taken back.
pub record IsStronger (a b : Requirement) : Type 0 where
  pub same_id : b.id ≡ a.id
  pub same_kind : b.kind ≡ a.kind
  pub as_required : (a.required ≡ false) ⊎ (b.required ≡ true)
  pub as_deep : depth_rank a.depth ≤ depth_rank b.depth
  pub as_constrained : (a.constraint ≡ none) ⊎ (b.constraint ≡ a.constraint)
  pub tags_kept : (x : String) → In x a.tags → In x b.tags
  pub dependencies_kept : (x : String) → In x a.depends_on → In x b.depends_on
  pub sources_kept : (x : RequirementSource) → In x a.sources → In x b.sources

pub IsStronger-refl : (a : Requirement) → IsStronger a a
IsStronger-refl a = record {
  same_id = refl;
  same_kind = refl;
  as_required = elim (Bool-cases a.required) [ inl e ↦ inr e | inr e ↦ inl e ];
  as_deep = omega arith;
  as_constrained = inr refl;
  tags_kept = λ x i. i;
  dependencies_kept = λ x i. i;
  sources_kept = λ x i. i;
}

pub IsStronger-trans : (a b c : Requirement) → IsStronger a b → IsStronger b c → IsStronger a c
IsStronger-trans a b c s t = record {
  same_id = t.same_id ∙ s.same_id;
  same_kind = t.same_kind ∙ s.same_kind;
  as_required = elim s.as_required [
    | inl e ↦ inl e
    | inr e ↦ elim t.as_required [ inl k ↦ absurd (ground arith) | inr k ↦ inr k ]
  ];
  as_deep = omega (arith, s.as_deep, t.as_deep);
  as_constrained = elim s.as_constrained [
    | inl e ↦ inl e
    | inr e ↦ elim t.as_constrained [ inl k ↦ inl (sym e ∙ k) | inr k ↦ inr (k ∙ e) ]
  ];
  tags_kept = λ x i. t.tags_kept x (s.tags_kept x i);
  dependencies_kept = λ x i. t.dependencies_kept x (s.dependencies_kept x i);
  sources_kept = λ x i. t.sources_kept x (s.sources_kept x i);
}

-- Each requirement of the first map is in the second, at least as strong.
abbrev pub Grows : List Requirement → List Requirement → Type 0
Grows rs rs' =
    (id : String) (a : Requirement)
    → get id rs ≡ some a
    → (b : Requirement) × (get id rs' ≡ some b) × IsStronger a b

pub Grows-refl : (rs : List Requirement) → Grows rs rs
Grows-refl rs id a h = (a, h, IsStronger-refl a)

pub Grows-trans : (xs ys zs : List Requirement) → Grows xs ys → Grows ys zs → Grows xs zs
Grows-trans xs ys zs g h id a e =
    let (b, f, s) = g id a e in let (c, k, t) = h id b f in (c, k, IsStronger-trans a b c s t)

-- Putting a stronger requirement in the place of its predecessor.
pub put-Grows :
    (r x : Requirement) (rs : List Requirement)
    → get r.id rs ≡ some x
    → IsStronger x r
    → Grows rs (put r rs)
put-Grows r x rs found s id a h = elim (Bool-cases (r.id == id)) [
  | inl e ↦
      let same : r.id ≡ id = (eq_iff r.id id).0 e in
      let here : get id rs ≡ some x = ap (λ j. get j rs) (sym same) ∙ found in
      let is_x : x ≡ a = ground arith in
      (r, ap (λ j. get j (put r rs)) (sym same) ∙ get-put-same r x rs found, rw is_x at s)
  | inr e ↦ (a, get-put-other r rs id e ∙ h, IsStronger-refl a)
]

-- What a template asks of a requirement is part of it.
pub record Honours (t : BlueprintTemplate) (r : TemplateRequirement) (b : Requirement)
    : Type 0 where
  pub same_id : b.id ≡ r.id
  pub same_kind : b.kind ≡ r.kind
  pub as_required : (default r.required true ≡ false) ⊎ (b.required ≡ true)
  pub as_deep : depth_rank (default r.depth basic) ≤ depth_rank b.depth
  pub as_constrained : (r.constraint ≡ none) ⊎ (b.constraint ≡ r.constraint)
  pub tags_kept : (x : String) → In x (default r.tags []) → In x b.tags
  pub dependencies_kept : (x : String) → In x (default r.depends_on []) → In x b.depends_on
  pub sourced : In (source_of t r) b.sources

pub Honours-IsStronger :
    (t : BlueprintTemplate) (r : TemplateRequirement) (a b : Requirement)
    → Honours t r a
    → IsStronger a b
    → Honours t r b
Honours-IsStronger t r a b h s = record {
  same_id = s.same_id ∙ h.same_id;
  same_kind = s.same_kind ∙ h.same_kind;
  as_required = elim h.as_required [
    | inl e ↦ inl e
    | inr e ↦ elim s.as_required [ inl k ↦ absurd (ground arith) | inr k ↦ inr k ]
  ];
  as_deep = omega (arith, h.as_deep, s.as_deep);
  as_constrained = elim h.as_constrained [
    | inl e ↦ inl e
    | inr e ↦ elim s.as_constrained [ inl k ↦ inl (sym e ∙ k) | inr k ↦ inr (k ∙ e) ]
  ];
  tags_kept = λ x i. s.tags_kept x (h.tags_kept x i);
  dependencies_kept = λ x i. s.dependencies_kept x (h.dependencies_kept x i);
  sourced = s.sources_kept (source_of t r) h.sourced;
}

pub In-add_all : (xs set : List String) (x : String) → (In x xs ⊎ In x set) → In x (add_all xs set)
unfolding add_all
In-add_all [] set x h = elim h [ inl i ↦ absurd i | inr i ↦ i ]
In-add_all (y ∷ xs) set x h =
    let next = if includes set y then set else set ++ (y ∷ []) in
    let old : In x set → In x next = λ i. elim (Bool-cases (includes set y)) [
      | inl e ↦ rw e i
      | inr e ↦ rw e ((In-append_iff set (y ∷ []) x).1 (inl i))
    ] in
    let new : y ≡ x → In x next = λ q. elim (Bool-cases (includes set y)) [
      | inl e ↦ rw e (rw q at ((includes_iff set y).0 e))
      | inr e ↦ rw e ((In-append_iff set (y ∷ []) x).1 (inr (inl q)))
    ] in
    In-add_all xs next x
      (elim h [ inl i ↦ elim i [ inl q ↦ inr (new q) | inr j ↦ inl j ] | inr i ↦ inr (old i) ])

pub max_depth-le :
    (a b : RequirementDepth)
    → (depth_rank a ≤ depth_rank (max_depth a b)) × (depth_rank b ≤ depth_rank (max_depth a b))
unfolding max_depth
max_depth-le a b = ground arith

pub merged-IsStronger :
    (t : BlueprintTemplate) (r : TemplateRequirement) (a : Requirement)
    → IsStronger a (merged t r a)
unfolding merged
merged-IsStronger t r a = record {
  same_id = refl;
  same_kind = refl;
  as_required = elim (Bool-cases a.required) [ inl e ↦ inr (rw e refl) | inr e ↦ inl e ];
  as_deep = (max_depth-le a.depth (default r.depth basic)).0;
  as_constrained = elim (Option-cases a.constraint) [
    | inl e ↦ inl e
    | inr (c, e) ↦ inr (rw e refl)
  ];
  tags_kept = λ x i. In-add_all (default r.tags []) a.tags x (inr i);
  dependencies_kept = λ x i. In-add_all (default r.depends_on []) a.depends_on x (inr i);
  sources_kept = λ x i. (In-append_iff a.sources (source_of t r ∷ []) x).1 (inl i);
}
