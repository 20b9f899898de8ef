-- ===== src/Shared/Table/Memory.antt =====
-- An in-memory table that meets the interface: a list of written rows, the newest first, of which
-- the first with a key counts. It shows that the laws can hold together, and runs in tests.
use software_blueprint_hub.Shared.{
  ℕ, ◌≡◌, refl, inl, inr, Bool, true, not, ◌&&◌, Option, none, some, List, [], ◌∷◌, arith,
  if◌then◌else◌, filter, In, In-filter_iff, Bool-cases,
}
use software_blueprint_hub.Shared.Table.{Key, Table, hits}

module _ {K Row : Type 0} (k : Key K) (key : Row → K) where
  abbrev pub find_row : K → List Row → Option Row
  find_row j [] = none
  find_row j (r ∷ t) = if k.same (key r) j then some r else find_row j t

  abbrev pub live : List Row → List Row
  live [] = []
  live (r ∷ t) = r ∷ filter (λ x. not (k.same (key r) (key x))) (live t)

  abbrev pub create_row : Row → List Row → Option (List Row)
  create_row r t = elim (find_row (key r) t) [ none ↦ some (r ∷ t) | some x ↦ none ]

  abbrev pub update_rows : (Row → Bool) → Row → List Row → ℕ × List Row
  update_rows test r t = if hits test (find_row (key r) t) then (1, r ∷ t) else (0, t)

  pub find_row-key : (j : K) (t : List Row) (r : Row) → find_row j t ≡ some r → key r ≡ j
  find_row-key j [] r h = absurd (ground arith)
  find_row-key j (x ∷ t) r h = ground (arith, k.same_iff (key x) j, find_row-key j t r)

  find_row-live : (t : List Row) (r : Row) → In r (live t) → find_row (key r) t ≡ some r
  find_row-live [] r h = absurd h
  find_row-live (x ∷ t) r (inl e) = rw (← e, (k.same_iff (key x) (key x)).1 refl)
  find_row-live (x ∷ t) r (inr i) =
      let (j, q) = (In-filter_iff (λ y. not (k.same (key x) (key y))) (live t) r).0 i in
      ground (arith, find_row-live t r j)

  pub find_row-many :
      (test : Row → Bool) (t : List Row) (r : Row)
      → In r (filter test (live t))
      → (find_row (key r) t ≡ some r) × (test r ≡ true)
  find_row-many test t r h =
      let (i, q) = (In-filter_iff test (live t) r).0 h in (find_row-live t r i, q)

  live-find_row : (t : List Row) (r : Row) → find_row (key r) t ≡ some r → In r (live t)
  live-find_row [] r h = absurd (ground arith)
  live-find_row (x ∷ t) r h = elim (Bool-cases (k.same (key x) (key r))) [
    | inl e ↦ inl (ground arith)
    | inr e ↦ inr (
        (In-filter_iff (λ y. not (k.same (key x) (key y))) (live t) r).1
          (live-find_row t r (rw e at h), rw e refl))
  ]

  pub many-find_row :
      (test : Row → Bool) (t : List Row) (r : Row)
      → find_row (key r) t ≡ some r
      → test r ≡ true
      → In r (filter test (live t))
  many-find_row test t r found passes =
      (In-filter_iff test (live t) r).1 (live-find_row t r found, passes)

  pub find_row-create :
      (r : Row) (t u : List Row) (j : K)
      → create_row r t ≡ some u
      → find_row j u ≡ (if k.same (key r) j then some r else find_row j t)
  find_row-create r t u j h = ground arith

  pub create_row_fresh :
      (r : Row) (t u : List Row) → create_row r t ≡ some u → find_row (key r) t ≡ none
  create_row_fresh r t u h = ground arith

  pub count-update_rows :
      (test : Row → Bool) (r : Row) (t : List Row)
      → (update_rows test r t).0 ≡ (if hits test (find_row (key r) t) then 1 else 0)
  count-update_rows test r t = ground arith

  pub find_row-update_rows :
      (test : Row → Bool) (r : Row) (t : List Row) (j : K)
      → find_row j (update_rows test r t).1
        ≡ (if hits test (find_row (key r) t) && k.same (key r) j then some r else find_row j t)
  find_row-update_rows test r t j = ground arith

  abbrev pub memory_table : Table k key
  memory_table = record {
    Rows = List Row;
    find_unique = find_row;
    find_many = λ test t. filter test (live t);
    create = create_row;
    upsert = λ r t. r ∷ t;
    update_many = update_rows;
    find-key = find_row-key;
    find-many = find_row-many;
    many-find = many-find_row;
    find-create = find_row-create;
    create_fresh = create_row_fresh;
    find-upsert = λ r t j. refl;
    count-update = count-update_rows;
    find-update = find_row-update_rows;
  }
