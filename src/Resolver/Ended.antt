-- ===== src/Resolver/Ended.antt =====
-- `dependencyClosure` ends: each turn shortens the queue, or takes a module whose dependencies were not
-- counted before.
use software_blueprint_hub.Shared.{
  ℕ, zero, suc, ◌+◌, ◌≤◌, ◌<◌, String, ◌≡◌, refl, sym, ap, ◌∙◌, inl, inr, Bool, false, Option, none,
  some, List, [], ◌∷◌, ◌==◌, eq_iff, if◌then◌else◌, includes, length, length-append, arith,
  Bool-cases,
}
use software_blueprint_hub.Shared.Sorting.{sort, insert}
use software_blueprint_hub.Shared.Text.{sort_texts, text_le}
use software_blueprint_hub.Resolver.{is_module, Requirement}
use software_blueprint_hub.Resolver.Merge.{get, put, Resolving}
use software_blueprint_hub.Resolver.Closure.{
  required_modules, required_by, require_dependency, Turn, meet, meet_all, expand, turn, close,
  count_dependencies, dependency_closure,
}
use software_blueprint_hub.Resolver.Entries.{get-id}

length-insert :
    (le : String → String → Bool) (a : String) (xs : List String)
    → length (insert le a xs) ≡ suc (length xs)
unfolding insert
length-insert le a [] = refl
length-insert le a (x ∷ xs) = ground (arith, length-insert le a xs)

length-sort : (le : String → String → Bool) (xs : List String) → length (sort le xs) ≡ length xs
unfolding sort
length-sort le [] = refl
length-sort le (x ∷ xs) = length-insert le x (sort le xs) ∙ ap suc (length-sort le xs)

-- What the requirement counts for, when its id was not visited.
abbrev weight : List String → Requirement → ℕ
weight visited r = if includes visited r.id then 0 else length r.depends_on

-- How many ids the requirements depend on whose ids were not visited.
abbrev open_dependencies : List String → List Requirement → ℕ
open_dependencies visited [] = 0
open_dependencies visited (r ∷ rs) = weight visited r + open_dependencies visited rs

open_dependencies-none : (rs : List Requirement) → open_dependencies [] rs ≡ count_dependencies rs
open_dependencies-none [] = refl
open_dependencies-none (r ∷ rs) = ap (λ n. length r.depends_on + n) (open_dependencies-none rs)

weight-le :
    (visited : List String) (id : String) (r : Requirement)
    → weight (id ∷ visited) r ≤ weight visited r
weight-le visited id r = ground arith

open_dependencies-le :
    (visited : List String) (id : String) (rs : List Requirement)
    → open_dependencies (id ∷ visited) rs ≤ open_dependencies visited rs
open_dependencies-le visited id [] = omega arith
open_dependencies-le visited id (r ∷ rs) =
    omega (arith, weight-le visited id r, open_dependencies-le visited id rs)

-- Visiting the id of a module takes its dependencies out of the count.
open_dependencies-visited :
    (visited : List String) (id : String) (rs : List Requirement) (r : Requirement)
    → get id rs ≡ some r
    → includes visited id ≡ false
    → open_dependencies (id ∷ visited) rs + length r.depends_on ≤ open_dependencies visited rs
unfolding get
open_dependencies-visited visited id [] r found fresh = absurd (ground arith)
open_dependencies-visited visited id (x ∷ rs) r found fresh = elim (Bool-cases (x.id == id)) [
  | inl e ↦
      let is_r : x ≡ r = ground arith in
      let same : x.id ≡ id = (eq_iff x.id id).0 e in
      let before : weight visited x ≡ length x.depends_on = rw (same, fresh) refl in
      let after : weight (id ∷ visited) x ≡ 0 = rw (same, (eq_iff id id).1 refl) refl in
      let size : length x.depends_on ≡ length r.depends_on = ap (λ y. length y.depends_on) is_r in
      omega (arith, open_dependencies-le visited id rs)
  | inr e ↦ omega (
    arith,
    weight-le visited id x,
    open_dependencies-visited visited id rs r (rw e at found) fresh,
  )
]

open_dependencies-put :
    (visited : List String) (r x : Requirement) (rs : List Requirement)
    → get r.id rs ≡ some x
    → r.depends_on ≡ x.depends_on
    → open_dependencies visited (put r rs) ≡ open_dependencies visited rs
unfolding get put
open_dependencies-put visited r x [] found same = absurd (ground arith)
open_dependencies-put visited r x (y ∷ rs) found same = elim (Bool-cases (y.id == r.id)) [
  | inl e ↦
      let is_x : y ≡ x = ground arith in
      let own : y.id ≡ r.id = (eq_iff y.id r.id).0 e in
      let heavy : weight visited r ≡ weight visited y =
        rw (own, same, sym (ap Requirement.depends_on is_x)) refl in
      rw e (ap (λ n. n + open_dependencies visited rs) heavy)
  | inr e ↦
      rw e
        (ap (λ n. weight visited y + n) (open_dependencies-put visited r x rs (rw e at found) same))
]

module _ (le : String → String → Bool) (sha256_hex : String → String) (visited : List String) where
  -- What one loop over dependencies does to the measure.
  abbrev Adds : ℕ → Turn → Turn → Type 0
  Adds n w w' =
      (length w'.queue ≤ length w.queue + n)
      × (open_dependencies visited w'.state.requirements
          ≡ open_dependencies visited w.state.requirements)

  require_dependency-open :
      (id dep : String) (d : Requirement) (rs : List Requirement)
      → get dep rs ≡ some d
      → open_dependencies visited (require_dependency id d rs) ≡ open_dependencies visited rs
  require_dependency-open id dep d rs found = elim (Bool-cases d.required) [
    | inl e ↦ rw e refl
    | inr e ↦ rw e (
        open_dependencies-put visited (required_by id d) d rs
          (ap (λ k. get k rs) (get-id dep rs d found) ∙ found) refl)
  ]

  meet-Adds :
      (id dep : String) (o : Option Requirement) (w : Turn)
      → get dep w.state.requirements ≡ o
      → Adds 1 w (meet le sha256_hex id dep o w)
  meet-Adds id dep none w found = (omega arith, refl)
  meet-Adds id dep (some d) w found = elim (Bool-cases (is_module d.kind)) [
    | inl e ↦
        let longer = length-append w.queue (dep ∷ []) in
        rw e (omega (arith, longer), require_dependency-open id dep d w.state.requirements found)
    | inr e ↦ rw e (omega arith, refl)
  ]

  meet_all-Adds :
      (id : String) (ds : List String) (w : Turn)
      → Adds (length ds) w (meet_all le sha256_hex id ds w)
  unfolding meet_all
  meet_all-Adds id [] w = (omega arith, refl)
  meet_all-Adds id (dep ∷ ds) w =
      let next = meet le sha256_hex id dep (get dep w.state.requirements) w in
      let (short, same) = meet-Adds id dep (get dep w.state.requirements) w refl in
      let (shorter, kept) = meet_all-Adds id ds next in (omega (arith, short, shorter), kept ∙ same)

module _ (le : String → String → Bool) (sha256_hex : String → String) where
  expand-shorter :
      (visited : List String) (id : String) (o : Option Requirement) (w : Turn)
      → get id w.state.requirements ≡ o
      → includes visited id ≡ false
      → length (expand le sha256_hex id o w).queue
          + open_dependencies (id ∷ visited) (expand le sha256_hex id o w).state.requirements
        ≤ length w.queue + open_dependencies visited w.state.requirements
  unfolding sort_texts
  expand-shorter visited id none w found fresh =
      omega (arith, open_dependencies-le visited id w.state.requirements)
  expand-shorter visited id (some r) w found fresh = elim (Bool-cases (is_module r.kind)) [
    | inl e ↦
        let (short, same) =
          meet_all-Adds le sha256_hex (id ∷ visited) id (sort_texts r.depends_on) w in
        let all = length-sort text_le r.depends_on in
        let less = open_dependencies-visited visited id w.state.requirements r found fresh in
        rw e (omega (arith, short, same, all, less))
    | inr e ↦ rw e (omega (arith, open_dependencies-le visited id w.state.requirements))
  ]

  close-some :
      (fuel : ℕ) (visited queue : List String) (s : Resolving)
      → length queue + open_dependencies visited s.requirements < fuel
      → (s' : Resolving) × (close le sha256_hex fuel visited queue s ≡ some s')
  unfolding close turn
  close-some zero visited queue s enough = absurd (omega arith)
  close-some (suc fuel) visited [] s enough = (s, refl)
  close-some (suc fuel) visited (id ∷ rest) s enough = elim (Bool-cases (includes visited id)) [
    | inl e ↦ let (s', h) = close-some fuel visited rest s (omega arith) in (s', rw e h)
    | inr e ↦
        let w : Turn = record { queue = rest; state = s } in
        let next = turn le sha256_hex id w in
        let shorter = expand-shorter visited id (get id s.requirements) w refl e in
        let (s', h) =
          close-some fuel (id ∷ visited) next.queue next.state (omega (arith, shorter)) in
        (s', rw e h)
  ]

  -- The closure always ends within its fuel.
  pub dependency_closure-some :
      (s : Resolving) → (s' : Resolving) × (dependency_closure le sha256_hex s ≡ some s')
  unfolding dependency_closure
  dependency_closure-some s =
      let none_visited = open_dependencies-none s.requirements in
      close-some _ [] (required_modules s.requirements) s (omega (arith, none_visited))
