-- ===== src/Resolver/Closed.antt =====
-- What `dependencyClosure` leaves when it reports nothing as missing: the dependencies of every
-- required module are required modules.
use software_blueprint_hub.Shared.{
  ℕ, zero, suc, String, ◌≡◌, refl, sym, ap, ◌∙◌, subst, ◌↔◌, In-map_iff, ◌⊎◌, inl, inr, Bool, true,
  Option, none, some, List, [], ◌∷◌, In, In-filter_iff, includes, includes_iff, filter, and_parts,
  arith, Bool-cases, Option-cases,
}
use software_blueprint_hub.Shared.Sorting.{In-sort_iff}
use software_blueprint_hub.Shared.Text.{sort_texts, text_le}
use software_blueprint_hub.Resolver.{is_module, Requirement}
use software_blueprint_hub.Resolver.Merge.{get, Resolving}
use software_blueprint_hub.Resolver.Closure.{
  is_required_module, required_modules, Turn, expand, turn, close, dependency_closure,
}
use software_blueprint_hub.Resolver.Entries.{get-id, get-In, get-IsDistinct, IsDistinct}
use software_blueprint_hub.Resolver.Marked.{
  IsRequired, IsMarked, IsMarked-refl, IsMarked-trans, IsRequired-IsMarked, meet_all-IsMet,
}

-- All that the module of an id depends on is required.
abbrev pub IsSettled : String → List Requirement → Type 0
IsSettled id rs =
    (r : Requirement) (d : String)
    → get id rs ≡ some r
    → is_module r.kind ≡ true
    → In d r.depends_on
    → IsRequired d rs

pub required_modules_iff :
    (rs : List Requirement) (id : String)
    → IsDistinct rs
    → In id (required_modules rs) ↔ IsRequired id rs
unfolding required_modules
required_modules_iff rs id distinct =
    let (to, from) = In-map_iff Requirement.id (filter is_required_module rs) id in
    (
      λ h.
          let (r, i, e) = to h in
          let (j, k) = (In-filter_iff is_required_module rs r).0 i in
          let (kind, required) = and_parts (is_module r.kind) r.required k in
          (r, ap (λ x. get x rs) (sym e) ∙ get-IsDistinct rs r distinct j, kind, required),
      λ (r, found, kind, required). from (
        r,
        (In-filter_iff is_required_module rs r).1 (get-In id rs r found, rw (kind, required) refl),
        get-id id rs r found,
      ),
    )

-- What one turn of the loop leaves.
pub record IsTurned (id : String) (w w' : Turn) : Type 0 where
  pub quiet : w.state.conflicts ≡ []
  pub marked : IsMarked w.state.requirements w'.state.requirements
  pub settled : IsSettled id w'.state.requirements
  pub waiting : (j : String) → In j w.queue → In j w'.queue
  pub new_ones :
      (j : String)
      → IsRequired j w'.state.requirements
      → IsRequired j w.state.requirements ⊎ In j w'.queue

module _ (le : String → String → Bool) (sha256_hex : String → String) where
  idle-IsTurned :
      (id : String) (w : Turn)
      → w.state.conflicts ≡ []
      → IsSettled id w.state.requirements
      → IsTurned id w w
  idle-IsTurned id w quiet settled = record {
    quiet = quiet;
    marked = IsMarked-refl w.state.requirements;
    settled = settled;
    waiting = λ j i. i;
    new_ones = λ j k. inl k;
  }

  expand-IsTurned :
      (id : String) (o : Option Requirement) (w : Turn)
      → get id w.state.requirements ≡ o
      → (expand le sha256_hex id o w).state.conflicts ≡ []
      → IsTurned id w (expand le sha256_hex id o w)
  unfolding sort_texts
  expand-IsTurned id none w found quiet =
      idle-IsTurned id w quiet (λ r d e kind i. absurd (ground arith))
  expand-IsTurned id (some r) w found quiet = elim (Bool-cases (is_module r.kind)) [
    | inl e ↦
        let met = meet_all-IsMet le sha256_hex id (sort_texts r.depends_on) w (rw e at quiet) in
        rw e (record {
          quiet = met.quiet;
          marked = met.marked;
          settled = λ s d there kind i.
              let (b, here, stronger, same) = met.marked.kept id r found in
              let is_s : b ≡ s = ground arith in
              let among : In d r.depends_on =
                subst (λ ds. In d ds) (sym (ap Requirement.depends_on is_s) ∙ same) i in
              met.required d ((In-sort_iff text_le r.depends_on d).1 among);
          waiting = met.waiting;
          new_ones = met.new_ones;
        })
    | inr e ↦ rw e (
        idle-IsTurned id w (rw e at quiet) (λ s d there kind i.
          let is_s : r ≡ s = ground arith in
          absurd (ground (arith, ap (λ x. is_module x.kind) is_s))))
  ]

  turn-IsTurned :
      (id : String) (w : Turn)
      → (turn le sha256_hex id w).state.conflicts ≡ []
      → IsTurned id w (turn le sha256_hex id w)
  unfolding turn
  turn-IsTurned id w quiet = expand-IsTurned id (get id w.state.requirements) w refl quiet

  -- Every required module was visited or waits in the queue.
  abbrev IsPending : List String → List String → List Requirement → Type 0
  IsPending visited queue rs = (j : String) → IsRequired j rs → In j visited ⊎ In j queue

  -- What the loop leaves, for the ids that were not visited before.
  pub record IsClosed (visited : List String) (s s' : Resolving) : Type 0 where
    pub quiet : s.conflicts ≡ []
    pub marked : IsMarked s.requirements s'.requirements
    pub settled :
        (j : String) → IsRequired j s'.requirements → In j visited ⊎ IsSettled j s'.requirements

  -- A settled module stays settled.
  IsSettled-IsMarked :
      (id : String) (rs rs' : List Requirement)
      → IsMarked rs rs'
      → IsSettled id rs
      → IsSettled id rs'
  IsSettled-IsMarked id rs rs' m settled s y there kind i = elim (Option-cases (get id rs)) [
    | inl e ↦ absurd (ground (arith, m.absent id e))
    | inr (d, found) ↦
        let (b, here, stronger, same) = m.kept id d found in
        let is_s : b ≡ s = ground arith in
        let as_module : is_module d.kind ≡ true =
          rw (sym stronger.same_kind ∙ ap Requirement.kind is_s) kind in
        IsRequired-IsMarked rs rs' y m (
          settled d y found as_module
            (subst (λ ds. In y ds) (sym (ap Requirement.depends_on is_s) ∙ same) i))
  ]

  close_quiet :
      (fuel : ℕ) (visited queue : List String) (s s' : Resolving)
      → close le sha256_hex fuel visited queue s ≡ some s'
      → s'.conflicts ≡ []
      → s.conflicts ≡ []
  unfolding close
  close_quiet zero visited queue s s' h quiet = absurd (ground arith)
  close_quiet (suc fuel) visited [] s s' h quiet =
      let same : s ≡ s' = ground arith in rw (sym (ap Resolving.conflicts same)) at quiet
  close_quiet (suc fuel) visited (id ∷ rest) s s' h quiet =
      elim (Bool-cases (includes visited id)) [
        | inl e ↦ close_quiet fuel visited rest s s' (rw e at h) quiet
        | inr e ↦
            let w : Turn = record { queue = rest; state = s } in
            let next = turn le sha256_hex id w in
            (turn-IsTurned id w
              (close_quiet fuel (id ∷ visited) next.queue next.state s' (rw e at h) quiet)).quiet
      ]

  close-IsClosed :
      (fuel : ℕ) (visited queue : List String) (s s' : Resolving)
      → close le sha256_hex fuel visited queue s ≡ some s'
      → s'.conflicts ≡ []
      → IsPending visited queue s.requirements
      → IsClosed visited s s'
  unfolding close
  close-IsClosed zero visited queue s s' h quiet pending = absurd (ground arith)
  close-IsClosed (suc fuel) visited [] s s' h quiet pending =
      let same : s ≡ s' = ground arith in
      subst (IsClosed visited s) same (record {
        quiet = rw (sym (ap Resolving.conflicts same)) at quiet;
        marked = IsMarked-refl s.requirements;
        settled = λ j k. elim (pending j k) [ inl i ↦ inl i | inr i ↦ absurd i ];
      })
  close-IsClosed (suc fuel) visited (id ∷ rest) s s' h quiet pending =
      elim (Bool-cases (includes visited id)) [
        | inl e ↦ close-IsClosed fuel visited rest s s' (rw e at h) quiet (λ j k.
            elim (pending j k) [
              | inl i ↦ inl i
              | inr i ↦ elim i [
                | inl q ↦ inl (subst (λ x. In x visited) q ((includes_iff visited id).0 e))
                | inr l ↦ inr l
              ]
            ])
        | inr e ↦
            let w : Turn = record { queue = rest; state = s } in
            let next = turn le sha256_hex id w in
            let turned =
              turn-IsTurned id w
                (close_quiet fuel (id ∷ visited) next.queue next.state s' (rw e at h) quiet) in
            let later =
              close-IsClosed fuel (id ∷ visited) next.queue next.state s' (rw e at h) quiet (λ j k.
                elim (turned.new_ones j k) [
                  | inl old ↦ elim (pending j old) [
                    | inl i ↦ inl (inr i)
                    | inr i ↦ elim i [ inl q ↦ inl (inl q) | inr l ↦ inr (turned.waiting j l) ]
                  ]
                  | inr i ↦ inr i
                ]) in
            record {
              quiet = turned.quiet;
              marked =
                  IsMarked-trans s.requirements next.state.requirements s'.requirements
                    turned.marked later.marked;
              settled = λ j k. elim (later.settled j k) [
                | inl i ↦ elim i [
                  | inl q ↦ inr (
                      subst (λ x. IsSettled x s'.requirements) q
                        (IsSettled-IsMarked id next.state.requirements s'.requirements later.marked
                          turned.settled))
                  | inr l ↦ inl l
                ]
                | inr k' ↦ inr k'
              ];
            }
      ]

  -- When the closure ends without a conflict, the requirements had none before it, they changed only
  -- in what is required and in their sources, and all that a required module depends on is a required
  -- module.
  pub dependency_closure_sound :
      (s s' : Resolving)
      → IsDistinct s.requirements
      → dependency_closure le sha256_hex s ≡ some s'
      → s'.conflicts ≡ []
      → IsClosed [] s s'
  unfolding dependency_closure
  dependency_closure_sound s s' distinct h quiet =
      close-IsClosed _ [] (required_modules s.requirements) s s' h quiet
        (λ j k. inr ((required_modules_iff s.requirements j distinct).1 k))
