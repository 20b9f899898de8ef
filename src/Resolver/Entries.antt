-- ===== src/Resolver/Entries.antt =====
-- The map of requirements, as a list of values under distinct ids.
use software_blueprint_hub.Shared.{
  String, ◌≡◌, refl, sym, ap, ◌∙◌, inl, inr, false, none, some, List, [], ◌∷◌, ◌++◌, ◌==◌, eq_iff,
  In, arith, Bool-cases,
}
use software_blueprint_hub.Resolver.{Requirement}
use software_blueprint_hub.Resolver.Merge.{get, put}

pub get-id :
    (id : String) (rs : List Requirement) (r : Requirement) → get id rs ≡ some r → r.id ≡ id
unfolding get
get-id id [] r h = absurd (ground arith)
get-id id (x ∷ rs) r h = ground (arith, get-id id rs r, eq_iff x.id id)

pub get-In : (id : String) (rs : List Requirement) (r : Requirement) → get id rs ≡ some r → In r rs
unfolding get
get-In id [] r h = absurd (ground arith)
get-In id (x ∷ rs) r h = elim (Bool-cases (x.id == id)) [
  | inl e ↦ inl (ground arith)
  | inr e ↦ inr (get-In id rs r (rw e at h))
]

pub get-append :
    (id : String) (rs ys : List Requirement) (r : Requirement)
    → get id rs ≡ some r
    → get id (rs ++ ys) ≡ some r
unfolding get
get-append id [] ys r h = absurd (ground arith)
get-append id (x ∷ rs) ys r h = ground (arith, get-append id rs ys r)

pub get-append-none :
    (id : String) (rs ys : List Requirement) → get id rs ≡ none → get id (rs ++ ys) ≡ get id ys
unfolding get
get-append-none id [] ys h = refl
get-append-none id (x ∷ rs) ys h = ground (arith, get-append-none id rs ys)

pub get-put-same :
    (r x : Requirement) (rs : List Requirement)
    → get r.id rs ≡ some x
    → get r.id (put r rs) ≡ some r
unfolding get put
get-put-same r x [] h = absurd (ground arith)
get-put-same r x (y ∷ rs) h = ground (arith, get-put-same r x rs, eq_iff r.id r.id)

pub get-put-other :
    (r : Requirement) (rs : List Requirement) (id : String)
    → (r.id == id) ≡ false
    → get id (put r rs) ≡ get id rs
unfolding get put
get-put-other r [] id h = refl
get-put-other r (y ∷ rs) id h = elim (Bool-cases (y.id == r.id)) [
  | inl e ↦
      let same : y.id ≡ r.id = (eq_iff y.id r.id).0 e in ground (arith, ap (λ j. j == id) same)
  | inr e ↦ ground (arith, get-put-other r rs id h)
]

-- No id has two values.
abbrev pub IsDistinct : List Requirement → Type 0
IsDistinct [] = Unit
IsDistinct (r ∷ rs) = (get r.id rs ≡ none) × IsDistinct rs

pub get-IsDistinct :
    (rs : List Requirement) (r : Requirement) → IsDistinct rs → In r rs → get r.id rs ≡ some r
unfolding get
get-IsDistinct [] r d i = absurd i
get-IsDistinct (x ∷ rs) r d (inl e) = rw (← e, (eq_iff x.id x.id).1 refl) refl
get-IsDistinct (x ∷ rs) r d (inr i) = elim (Bool-cases (x.id == r.id)) [
  | inl e ↦
      let found = get-IsDistinct rs r d.1 i in
      let other : get x.id rs ≡ some r = ap (λ j. get j rs) ((eq_iff x.id r.id).0 e) ∙ found in
      absurd (ground (arith, d.0))
  | inr e ↦ rw e (get-IsDistinct rs r d.1 i)
]

pub get-put-none :
    (r : Requirement) (rs : List Requirement) (id : String)
    → get id rs ≡ none
    → get id (put r rs) ≡ none
unfolding get put
get-put-none r [] id h = refl
get-put-none r (y ∷ rs) id h = elim (Bool-cases (y.id == r.id)) [
  | inl e ↦
      let same : y.id ≡ r.id = (eq_iff y.id r.id).0 e in ground (arith, ap (λ j. j == id) same)
  | inr e ↦ ground (arith, get-put-none r rs id)
]

pub put-IsDistinct :
    (r : Requirement) (rs : List Requirement) → IsDistinct rs → IsDistinct (put r rs)
unfolding put
put-IsDistinct r [] d = tt
put-IsDistinct r (x ∷ rs) d = elim (Bool-cases (x.id == r.id)) [
  | inl e ↦ rw e (ap (λ j. get j rs) (sym ((eq_iff x.id r.id).0 e)) ∙ d.0, d.1)
  | inr e ↦ rw e (get-put-none r rs x.id d.0, put-IsDistinct r rs d.1)
]

pub append-IsDistinct :
    (rs : List Requirement) (r : Requirement)
    → get r.id rs ≡ none
    → IsDistinct rs
    → IsDistinct (rs ++ (r ∷ []))
unfolding get
append-IsDistinct [] r h d = (refl, tt)
append-IsDistinct (x ∷ rs) r h d = elim (Bool-cases (x.id == r.id)) [
  | inl e ↦ absurd (ground arith)
  | inr e ↦ (
    get-append-none x.id rs (r ∷ []) d.0 ∙ ground (arith, eq_iff x.id r.id, eq_iff r.id x.id),
    append-IsDistinct rs r (rw e at h) d.1,
  )
]
