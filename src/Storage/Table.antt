-- ===== src/Storage/Table.antt =====
-- A SQLite table with a text primary key: the statements of storage/repository.py. The rows stand in
-- the order of their row identifiers; INSERT OR REPLACE deletes the row with the new row's key and
-- adds the new one behind the others.
pub mod Laws
use contract_evidence_os.Prelude.{
  ℕ, String, Bool, Option, none, some, List, [], ◌∷◌, ◌++◌, ◌==◌, ltb, if◌then◌else◌, sort_by,
}

module _ {A : Type 0} (key : A → String) where
  -- `SELECT * FROM t WHERE key = ?`, fetched as one row
  unfoldable pub find_row : String → List A → Option A
  find_row k [] = none
  find_row k (x ∷ xs) = let rest = find_row k xs in if key x == k then some x else rest

  unfoldable pub delete_row : String → List A → List A
  delete_row k [] = []
  delete_row k (x ∷ xs) = let rest = delete_row k xs in if key x == k then rest else x ∷ rest

  -- `_insert_or_replace`
  unfoldable pub insert_or_replace : A → List A → List A
  unfolding delete_row
  insert_or_replace v rows = delete_row (key v) rows ++ (v ∷ [])

-- ORDER BY a column; rows with equal columns keep the order of the table.
module _ {A : Type 0} (column : A → ℕ) where
  unfoldable pub order_by_asc : List A → List A
  order_by_asc rows = sort_by (λ x y. ltb (column x) (column y)) rows

  unfoldable pub order_by_desc : List A → List A
  order_by_desc rows = sort_by (λ x y. ltb (column y) (column x)) rows

-- The rows of an index that is scanned from its end: the latest write first.
unfoldable pub backwards {ℓ} : {A : Type ℓ} → List A → List A
backwards [] = []
backwards (x ∷ xs) = backwards xs ++ (x ∷ [])
