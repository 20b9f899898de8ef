-- ===== src/Shared/Table.antt =====
-- A database table behind the client that packages/persistence/src calls (Prisma over PostgreSQL,
-- which is not code of the repository): an interface with the documented behaviour of the calls.
-- `create` gives `none` where a unique constraint refuses the row; another constraint than the key's
-- may refuse it too, so the laws say what a success means and nothing of a refusal.
pub mod Memory
use software_blueprint_hub.Shared.{
  ℕ, String, ◌≡◌, refl, ◌⊎◌, inl, inr, Bool, true, false, ◌&&◌, Option, none, some, List, [], ◌∷◌,
  arith, if◌then◌else◌, ◌↔◌, filter, In, Bool-cases, ◌==◌, eq_iff, ==_refl, and_parts,
}

-- Equality of keys.
pub record Key (K : Type 0) : Type 0 where
  pub same : K → K → Bool
  pub same_iff : (j k : K) → (same j k ≡ true) ↔ (j ≡ k)

-- Whether a `where` clause on a unique key and a test on the row hits a row.
abbrev pub hits : {Row : Type 0} → (Row → Bool) → Option Row → Bool
hits test none = false
hits test (some r) = test r

pub record Table {K Row : Type 0} (k : Key K) (key : Row → K) : Type 1 where
  pub Rows : Type 0
  -- `findUnique({ where: key })`
  pub find_unique : K → Rows → Option Row
  -- `findMany({ where: test })`, in the order that the caller asks for
  pub find_many : (Row → Bool) → Rows → List Row
  -- `create({ data: row })`
  pub create : Row → Rows → Option Rows
  -- `upsert({ where: key, create: row, update: row })`
  pub upsert : Row → Rows → Rows
  -- `updateMany({ where: key and test, data: row })`, with its count
  pub update_many : (Row → Bool) → Row → Rows → ℕ × Rows
  pub find-key : (j : K) (t : Rows) (r : Row) → find_unique j t ≡ some r → key r ≡ j
  pub find-many :
      (test : Row → Bool) (t : Rows) (r : Row)
      → In r (find_many test t)
      → (find_unique (key r) t ≡ some r) × (test r ≡ true)
  pub many-find :
      (test : Row → Bool) (t : Rows) (r : Row)
      → find_unique (key r) t ≡ some r
      → test r ≡ true
      → In r (find_many test t)
  pub find-create :
      (r : Row) (t u : Rows) (j : K)
      → create r t ≡ some u
      → find_unique j u ≡ (if k.same (key r) j then some r else find_unique j t)
  pub create_fresh : (r : Row) (t u : Rows) → create r t ≡ some u → find_unique (key r) t ≡ none
  pub find-upsert :
      (r : Row) (t : Rows) (j : K)
      → find_unique j (upsert r t) ≡ (if k.same (key r) j then some r else find_unique j t)
  pub count-update :
      (test : Row → Bool) (r : Row) (t : Rows)
      → (update_many test r t).0 ≡ (if hits test (find_unique (key r) t) then 1 else 0)
  pub find-update :
      (test : Row → Bool) (r : Row) (t : Rows) (j : K)
      → find_unique j (update_many test r t).1 ≡ (
          if hits test (find_unique (key r) t) && k.same (key r) j then some r else find_unique j t)

-- Keys that the schema uses: a text, and a pair of texts.
abbrev pub text_key : Key String
text_key = record { same = ◌==◌; same_iff = eq_iff }

abbrev pub pair_eq : String × String → String × String → Bool
pair_eq (a, b) (c, d) = (a == c) && (b == d)

pub pair_eq_iff : (p q : String × String) → (pair_eq p q ≡ true) ↔ (p ≡ q)
pair_eq_iff (a, b) (c, d) = ground (arith, eq_iff a c, eq_iff b d)

abbrev pub pair_key : Key (String × String)
pair_key = record { same = pair_eq; same_iff = pair_eq_iff }
