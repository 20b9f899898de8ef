-- ===== src/Shared/Search/Order.antt =====
-- A search without a report finishes each id after all its successors: the finished ids are in a
-- topological order.
use Prim.Native.Nat.{ℕ, zero, suc}
use Prim.Native.String.{String}
use mathlib.Core.Path.{◌≡◌, refl, ap}
use mathlib.Core.Logic.{inl, inr}
use mathlib.Core.Option.{Option, none, some}
use mathlib.Core.List.{List, [], ◌∷◌, ◌++◌}
use native.Mathlib.Omega.{arith}
use software_blueprint_hub.Shared.Tests.{Bool-cases, Option-cases}
use software_blueprint_hub.Shared.Lists.{includes, includes_iff, In, All}
use software_blueprint_hub.Shared.Search.{Walk, visit_all, finished, visit}

-- Two calls in a row, the second from the walk that the first left.
pub visit_all-eq-some {ℓ} :
    {W : Type ℓ} (f : String → W → Option W) (id : String) (ids : List String) (w w' : W)
    → visit_all f (id ∷ ids) w ≡ some w'
    → (u : W) × (f id w ≡ some u) × (visit_all f ids u ≡ some w')
visit_all-eq-some f id ids w w' h = elim (Option-cases (f id w)) [
  | inl e ↦ absurd (ground arith)
  | inr (u, e) ↦ (u, e, rw e at h)
]

-- Each id stands before its successors.
abbrev pub IsOrdered : (String → List String) → List String → Type 0
IsOrdered successors [] = Unit
IsOrdered successors (x ∷ xs) = All (λ y. In y xs) (successors x) × IsOrdered successors xs

module _ {Log : Type 0} (successors : String → List String)
    (report : List String → String → Log → Log) where
  -- What a call without a report leaves.
  pub record IsAfter (ids : List String) (w w' : Walk Log) : Type 0 where
    pub ordered : IsOrdered successors w'.visited
    pub listed : All (λ id. In id w'.visited) ids
    pub kept : (x : String) → In x w.visited → In x w'.visited

  pub finished-eq-some :
      (id : String) (o : Option (Walk Log)) (w' : Walk Log)
      → finished successors report id o ≡ some w'
      → (u : Walk Log) × (o ≡ some u) × (record u { visited = id ∷ u.visited } ≡ w')
  finished-eq-some id none w' h = absurd (ground arith)
  finished-eq-some id (some u) w' h = (u, refl, ground arith)

  module _ (Quiet : Log → Type 0)
      (loud : (trail : List String) (id : String) (l : Log) → Quiet (report trail id l) → ⊥) where
    abbrev Backwards : (String → Walk Log → Option (Walk Log)) → Type 0
    Backwards f = (id : String) (w w' : Walk Log) → f id w ≡ some w' → Quiet w'.log → Quiet w.log

    abbrev Orders : (String → Walk Log → Option (Walk Log)) → Type 0
    Orders f =
        (id : String) (w w' : Walk Log)
        → f id w ≡ some w'
        → Quiet w'.log
        → IsOrdered successors w.visited
        → IsAfter (id ∷ []) w w'

    pub visit_all-Quiet :
        (f : String → Walk Log → Option (Walk Log))
        → Backwards f
        → (ids : List String) (w w' : Walk Log) → visit_all f ids w ≡ some w'
        → Quiet w'.log
        → Quiet w.log
    visit_all-Quiet f back [] w w' h q = let e : w ≡ w' = ground arith in rw e q
    visit_all-Quiet f back (id ∷ ids) w w' h q =
        let (u, one, rest) = visit_all-eq-some f id ids w w' h in
        back id w u one (visit_all-Quiet f back ids u w' rest q)

    pub visit_all-IsAfter :
        (f : String → Walk Log → Option (Walk Log))
        → Backwards f
        → Orders f
        → (ids : List String) (w w' : Walk Log) → visit_all f ids w ≡ some w'
        → Quiet w'.log
        → IsOrdered successors w.visited
        → IsAfter ids w w'
    visit_all-IsAfter f back orders [] w w' h q o =
        let e : w ≡ w' = ground arith in
        rw (← e) (record { ordered = o; listed = tt; kept = λ x i. i })
    visit_all-IsAfter f back orders (id ∷ ids) w w' h q o =
        let (u, one, rest) = visit_all-eq-some f id ids w w' h in
        let first = orders id w u one (visit_all-Quiet f back ids u w' rest q) o in
        let others = visit_all-IsAfter f back orders ids u w' rest q first.ordered in
        record {
          ordered = others.ordered;
          listed = (others.kept id first.listed.0, others.listed);
          kept = λ x i. others.kept x (first.kept x i);
        }

    pub visit-Quiet :
        (fuel : ℕ) (trail : List String) → Backwards (visit successors report fuel trail)
    unfolding visit
    visit-Quiet zero trail id w w' h q = absurd (ground arith)
    visit-Quiet (suc fuel) trail id w w' h q = elim (Bool-cases (includes trail id)) [
      | inl e ↦
          let same : record w { log = report trail id w.log } ≡ w' = ground arith in
          let log : report trail id w.log ≡ w'.log = ap Walk.log same in
          absurd (loud trail id w.log (rw log q))
      | inr e ↦ elim (Bool-cases (includes w.visited id)) [
        | inl f ↦ let same : w ≡ w' = ground arith in rw same q
        | inr f ↦
            let (u, below, same) = finished-eq-some id _ w' (rw (e, f) at h) in
            visit_all-Quiet _ (visit-Quiet fuel (trail ++ (id ∷ []))) (successors id) w u below
              (rw (← same) at q)
      ]
    ]

    pub visit-IsAfter :
        (fuel : ℕ) (trail : List String) → Orders (visit successors report fuel trail)
    unfolding visit
    visit-IsAfter zero trail id w w' h q o = absurd (ground arith)
    visit-IsAfter (suc fuel) trail id w w' h q o = elim (Bool-cases (includes trail id)) [
      | inl e ↦
          let same : record w { log = report trail id w.log } ≡ w' = ground arith in
          let log : report trail id w.log ≡ w'.log = ap Walk.log same in
          absurd (loud trail id w.log (rw log q))
      | inr e ↦ elim (Bool-cases (includes w.visited id)) [
        | inl f ↦
            let same : w ≡ w' = ground arith in
            rw (← same) (record {
              ordered = o;
              listed = ((includes_iff w.visited id).0 f, tt);
              kept = λ x i. i;
            })
        | inr f ↦
            let (u, below, same) = finished-eq-some id _ w' (rw (e, f) at h) in
            let after =
              visit_all-IsAfter _ (visit-Quiet fuel (trail ++ (id ∷ [])))
                (visit-IsAfter fuel (trail ++ (id ∷ []))) (successors id) w u below
                (rw (← same) at q) o in
            rw (← same) (record {
              ordered = (after.listed, after.ordered);
              listed = (inl refl, tt);
              kept = λ x i. inr (after.kept x i);
            })
      ]
    ]
