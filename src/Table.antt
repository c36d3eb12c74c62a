-- ===== src/Table.antt =====
-- A PostgreSQL table as the list of its rows: SELECT by a key, UPDATE of the rows with a key, a sum
-- over the rows, and the PRIMARY KEY and UNIQUE constraints of src/infra/migrations.
pub mod Laws
use peak_pass.Prelude.{
  ℕ, ◌+◌, ◌≡◌, ◌≢◌, refl, Bool, true, false, Option, none, some, List, [], ◌∷◌, arith, ◌==◌,
  if◌then◌else◌,
}

module _ {ℓ} {A : Type ℓ} where
  -- SELECT … WHERE key = k, its first row.
  unfoldable pub find : (A → ℕ) → ℕ → List A → Option A
  find key k [] = none
  find key k (r ∷ rows) = if key r == k then some r else find key k rows

  -- UPDATE … WHERE key = k.
  unfoldable pub update : (A → ℕ) → ℕ → (A → A) → List A → List A
  update key k f [] = []
  update key k f (r ∷ rows) = (if key r == k then f r else r) ∷ update key k f rows

  unfoldable pub sum : (A → ℕ) → List A → ℕ
  sum w [] = 0
  sum w (r ∷ rows) = w r + sum w rows

  -- The rows that pass a test, in the order of the table.
  unfoldable pub select : (A → Bool) → List A → List A
  select p [] = []
  select p (r ∷ rows) = let rest = select p rows in if p r then r ∷ rest else rest

  abbrev pub All {κ} : (A → Type κ) → List A → Type κ
  All P [] = Unit
  All P (r ∷ rows) = P r × All P rows

  -- The PRIMARY KEY or UNIQUE constraint on `key`.
  abbrev pub Unique : (A → ℕ) → List A → Type ℓ
  Unique key [] = Unit
  Unique key (r ∷ rows) = (find key (key r) rows ≡ none) × Unique key rows
