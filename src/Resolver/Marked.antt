-- ===== src/Resolver/Marked.antt =====
-- What one loop of `dependencyClosure` over the dependencies of a module does.
use software_blueprint_hub.Shared.{
  String, ◌≡◌, refl, sym, ap, ◌∙◌, subst, ◌⊎◌, inl, inr, Bool, true, Option, none, some, List, [],
  ◌∷◌, ◌++◌, ◌==◌, eq_iff, In, In-append_iff, append-eq-nil, arith, Bool-cases,
}
use software_blueprint_hub.Resolver.{is_module, Requirement}
use software_blueprint_hub.Resolver.Merge.{get, put}
use software_blueprint_hub.Resolver.Closure.{
  transitive_source, required_by, Turn, missing, queued, meet, meet_all,
}
use software_blueprint_hub.Resolver.Entries.{
  get-id, get-put-same, get-put-other, get-put-none, IsDistinct, put-IsDistinct,
}
use software_blueprint_hub.Resolver.Growth.{IsStronger, IsStronger-refl, IsStronger-trans}

-- The id is that of a required module.
abbrev pub IsRequired : String → List Requirement → Type 0
IsRequired id rs =
    (d : Requirement) × (get id rs ≡ some d) × (is_module d.kind ≡ true) × (d.required ≡ true)

-- The closure changes only what is required, and the sources.
pub record IsMarked (rs rs' : List Requirement) : Type 0 where
  pub kept :
      (id : String) (a : Requirement)
      → get id rs ≡ some a
      → (b : Requirement) × (get id rs' ≡ some b) × IsStronger a b × (b.depends_on ≡ a.depends_on)
  pub absent : (id : String) → get id rs ≡ none → get id rs' ≡ none
  pub distinct : IsDistinct rs → IsDistinct rs'

pub IsMarked-refl : (rs : List Requirement) → IsMarked rs rs
IsMarked-refl rs = record {
  kept = λ id a h. (a, h, IsStronger-refl a, refl);
  absent = λ id h. h;
  distinct = λ d. d;
}

pub IsMarked-trans :
    (xs ys zs : List Requirement) → IsMarked xs ys → IsMarked ys zs → IsMarked xs zs
IsMarked-trans xs ys zs m n = record {
  kept = λ id a h.
      let (b, e, s, p) = m.kept id a h in
      let (c, f, t, q) = n.kept id b e in (c, f, IsStronger-trans a b c s t, q ∙ p);
  absent = λ id h. n.absent id (m.absent id h);
  distinct = λ d. n.distinct (m.distinct d);
}

pub IsRequired-IsMarked :
    (rs rs' : List Requirement) (id : String)
    → IsMarked rs rs'
    → IsRequired id rs
    → IsRequired id rs'
IsRequired-IsMarked rs rs' id m (d, found, kind, required) =
    let (b, there, stronger, same) = m.kept id d found in
    (
      b,
      there,
      rw (stronger.same_kind) kind,
      elim stronger.as_required [ inl e ↦ absurd (ground arith) | inr e ↦ e ],
    )

required_by-IsStronger : (id : String) (d : Requirement) → IsStronger d (required_by id d)
required_by-IsStronger id d = record {
  same_id = refl;
  same_kind = refl;
  as_required = inr refl;
  as_deep = omega arith;
  as_constrained = inr refl;
  tags_kept = λ x i. i;
  dependencies_kept = λ x i. i;
  sources_kept = λ x i. (In-append_iff d.sources (transitive_source id ∷ []) x).1 (inl i);
}

put-IsMarked :
    (id : String) (d : Requirement) (rs : List Requirement)
    → get d.id rs ≡ some d
    → IsMarked rs (put (required_by id d) rs)
put-IsMarked id d rs found = record {
  kept = λ j a h. elim (Bool-cases (d.id == j)) [
    | inl e ↦
        let same : d.id ≡ j = (eq_iff d.id j).0 e in
        let here : get j rs ≡ some d = ap (λ k. get k rs) (sym same) ∙ found in
        let is_d : d ≡ a = ground arith in
        (
          required_by id d,
          ap (λ k. get k (put (required_by id d) rs)) (sym same)
              ∙ get-put-same (required_by id d) d rs found,
          subst (λ x. IsStronger x (required_by id d)) is_d (required_by-IsStronger id d),
          ap Requirement.depends_on is_d,
        )
    | inr e ↦ (a, get-put-other (required_by id d) rs j e ∙ h, IsStronger-refl a, refl)
  ];
  absent = λ j h. get-put-none (required_by id d) rs j h;
  distinct = λ k. put-IsDistinct (required_by id d) rs k;
}

-- What the loop over some dependencies has done, when it reports none as missing.
pub record IsMet (ds : List String) (w w' : Turn) : Type 0 where
  pub quiet : w.state.conflicts ≡ []
  pub marked : IsMarked w.state.requirements w'.state.requirements
  pub required : (d : String) → In d ds → IsRequired d w'.state.requirements
  pub waiting : (j : String) → In j w.queue → In j w'.queue
  pub new_ones :
      (j : String)
      → IsRequired j w'.state.requirements
      → IsRequired j w.state.requirements ⊎ In j w'.queue

module _ (le : String → String → Bool) (sha256_hex : String → String) where
  queued-IsMet :
      (id dep : String) (d : Requirement) (w : Turn)
      → get dep w.state.requirements ≡ some d
      → is_module d.kind ≡ true
      → w.state.conflicts ≡ []
      → IsMet (dep ∷ []) w (queued le sha256_hex id dep d w)
  queued-IsMet id dep d w found kind quiet =
      let rs = w.state.requirements in
      let own : d.id ≡ dep = get-id dep rs d found in
      let here : get d.id rs ≡ some d = ap (λ k. get k rs) own ∙ found in
      let last : In dep (w.queue ++ (dep ∷ [])) =
        (In-append_iff w.queue (dep ∷ []) dep).1 (inr (inl refl)) in
      let waits : (j : String) → In j w.queue → In j (w.queue ++ (dep ∷ [])) =
        λ j i. (In-append_iff w.queue (dep ∷ []) j).1 (inl i) in
      elim (Bool-cases d.required) [
        | inl e ↦ record {
          quiet = quiet;
          marked = rw e (IsMarked-refl rs);
          required =
              λ j i. rw e (elim i [ inl q ↦ rw (← q) (d, found, kind, e) | inr k ↦ absurd k ]);
          waiting = waits;
          new_ones = λ j k. inl (rw e at k);
        }
        | inr e ↦
            let after : get dep (put (required_by id d) rs) ≡ some (required_by id d) =
              ap (λ k. get k (put (required_by id d) rs)) (sym own)
              ∙ get-put-same (required_by id d) d rs here in
            record {
              quiet = quiet;
              marked = rw e (put-IsMarked id d rs here);
              required = λ j i. rw e (elim i [
                | inl q ↦ rw (← q) (required_by id d, after, kind, refl)
                | inr k ↦ absurd k
              ]);
              waiting = waits;
              new_ones = λ j k. elim (Bool-cases (d.id == j)) [
                | inl same ↦ inr (
                    subst (λ k. In k (w.queue ++ (dep ∷ []))) (sym own ∙ (eq_iff d.id j).0 same)
                      last)
                | inr other ↦
                    let (c, there, module_c, required_c) = rw e at k in
                    inl (
                      c,
                      sym (get-put-other (required_by id d) rs j other) ∙ there,
                      module_c,
                      required_c,
                    )
              ];
            }
      ]

  missing-loud :
      (id dep : String) (w : Turn) → (missing le sha256_hex id dep w).state.conflicts ≡ [] → ⊥
  missing-loud id dep w h =
      let k = (append-eq-nil w.state.conflicts _).0 h in absurd (ground (arith, k.1))

  meet-IsMet :
      (id dep : String) (o : Option Requirement) (w : Turn)
      → get dep w.state.requirements ≡ o
      → (meet le sha256_hex id dep o w).state.conflicts ≡ []
      → IsMet (dep ∷ []) w (meet le sha256_hex id dep o w)
  meet-IsMet id dep none w found quiet = absurd (missing-loud id dep w quiet)
  meet-IsMet id dep (some d) w found quiet = elim (Bool-cases (is_module d.kind)) [
    | inl e ↦ rw e (queued-IsMet id dep d w found e (rw e at quiet))
    | inr e ↦ absurd (missing-loud id dep w (rw e at quiet))
  ]

  pub meet_all-IsMet :
      (id : String) (ds : List String) (w : Turn)
      → (meet_all le sha256_hex id ds w).state.conflicts ≡ []
      → IsMet ds w (meet_all le sha256_hex id ds w)
  unfolding meet_all
  meet_all-IsMet id [] w quiet = record {
    quiet = quiet;
    marked = IsMarked-refl w.state.requirements;
    required = λ d i. absurd i;
    waiting = λ j i. i;
    new_ones = λ j k. inl k;
  }
  meet_all-IsMet id (dep ∷ ds) w quiet =
      let next = meet le sha256_hex id dep (get dep w.state.requirements) w in
      let last = meet_all le sha256_hex id ds next in
      let later = meet_all-IsMet id ds next quiet in
      let first = meet-IsMet id dep (get dep w.state.requirements) w refl later.quiet in
      record {
        quiet = first.quiet;
        marked =
            IsMarked-trans w.state.requirements next.state.requirements last.state.requirements
              first.marked later.marked;
        required = λ d i. elim i [
          | inl e ↦
              IsRequired-IsMarked next.state.requirements last.state.requirements d later.marked
                (first.required d (inl e))
          | inr j ↦ later.required d j
        ];
        waiting = λ j i. later.waiting j (first.waiting j i);
        new_ones = λ j k. elim (later.new_ones j k) [
          | inl r ↦ elim (first.new_ones j r) [ inl q ↦ inl q | inr q ↦ inr (later.waiting j q) ]
          | inr q ↦ inr q
        ];
      }
