-- ===== src/Config/Table.antt =====
-- internal/config/store.go: a table of the database whose key is INTEGER PRIMARY KEY AUTOINCREMENT
-- and one of whose columns is UNIQUE, as `accounts` and `proxies` are. The rows stand in the order
-- of their keys. `last` is the largest key that was ever given, so no key is given twice.
pub mod Rows
use opencode_multi_agents.Prelude.{
  ℕ, suc, ◌≡◌, Bool, true, false, ◌&&◌, ◌||◌, not, Option, none, some, List, [], ◌∷◌, ◌++◌, ◌==◌,
  if◌then◌else◌,
}
use opencode_multi_agents.Prelude.Bytes.{Bytes, same_bytes}

-- What a table asks of its rows: the key, the column that is UNIQUE, and a row with another key.
pub record Columns (A : Type 0) : Type 0 where
  pub key : A → ℕ
  pub label : A → Bytes
  pub keyed : ℕ → A → A
  pub key-keyed : (n : ℕ) (row : A) → key (keyed n row) ≡ n
  pub label-keyed : (n : ℕ) (row : A) → label (keyed n row) ≡ label row

pub record Table (A : Type 0) : Type 0 where
  pub rows : List A
  pub last : ℕ

abbrev pub no_rows : {A : Type 0} → Table A
no_rows = record { rows = []; last = 0 }

-- The database with the table that a statement leaves, if it succeeds.
abbrev pub with_row : {A S : Type 0} → (Table A → S) → Option (A × Table A) → Option (A × S)
with_row f none = none
with_row f (some (row, t)) = some (row, f t)

abbrev pub with_table : {A S : Type 0} → (Table A → S) → Option (Table A) → Option S
with_table f none = none
with_table f (some t) = some (f t)

module _ {A : Type 0} (columns : Columns A) where
  open columns use {key, label, keyed}

  -- Some row has this label.
  unfoldable pub taken : Bytes → List A → Bool
  taken s [] = false
  taken s (row ∷ rows) = same_bytes (label row) s || taken s rows

  -- INSERT: the row with its key; `none` where the label is taken
  unfoldable pub insert_row : A → Table A → Option (A × Table A)
  unfolding taken
  insert_row row t =
      let new = keyed (suc t.last) row in
      if taken (label row) t.rows
      then none
      else some (new, record { rows = t.rows ++ new ∷ []; last = suc t.last })

  -- SELECT … WHERE id = ?
  unfoldable pub find_row : ℕ → List A → Option A
  find_row id [] = none
  find_row id (row ∷ rows) = if key row == id then some row else find_row id rows

  -- Some row with another key has this label.
  unfoldable pub taken_elsewhere : ℕ → Bytes → List A → Bool
  taken_elsewhere id s [] = false
  taken_elsewhere id s (row ∷ rows) =
      (same_bytes (label row) s && not (key row == id)) || taken_elsewhere id s rows

  unfoldable pub replaced : A → List A → List A
  replaced new [] = []
  replaced new (row ∷ rows) = (if key row == key new then new else row) ∷ replaced new rows

  abbrev pub is_found : Option A → Bool
  is_found none = false
  is_found (some row) = true

  -- UPDATE … WHERE id = ?; a key that is not there changes nothing, and `none` is a label that
  -- another row has
  unfoldable pub update_row : A → Table A → Option (Table A)
  unfolding find_row taken_elsewhere replaced
  update_row new t =
      if is_found (find_row (key new) t.rows) && taken_elsewhere (key new) (label new) t.rows
      then none
      else some (record t { rows = replaced new t.rows })

  unfoldable pub without_row : ℕ → List A → List A
  without_row id [] = []
  without_row id (row ∷ rows) =
      let rest = without_row id rows in if key row == id then rest else row ∷ rest

  -- DELETE … WHERE id = ?
  unfoldable pub delete_row : ℕ → Table A → Table A
  unfolding without_row
  delete_row id t = record t { rows = without_row id t.rows }
