-- ===== src/Toolx/Import.antt =====
-- toolx/excelImport.go: reading a sheet, the rows as maps, the ids, and the batches of a transaction.
-- The workbook is what excelize gives: the names of the sheets in order, and the rows of each.
pub mod Sheets
pub mod Batches
pub mod Rows
pub mod SaveDb
use sub_sdk.Base.{
  ℕ, zero, suc, ◌+◌, Bool, true, false, Option, none, some, List, [], ◌∷◌, ◌++◌, Run, done, panic,
  out_of_range, ◌>>=◌, eqb, if◌then◌else◌, get_elem?, length, ltb, take, drop, ◌==◌,
}
use sub_sdk.Go.Text.{Bytes}
use sub_sdk.Toolx.TagBody.{TagBody, StructField, get_tag, get_field_by_tag}

abbrev pub Row : Type 0
Row = List Bytes

-- getSheetIndexByName: the position counted from 1, `none` for the error
index_from : ℕ → List Bytes → Bytes → Option ℕ
index_from i [] sheet_name = none
index_from i (name ∷ sheets) sheet_name =
    let later = index_from (suc i) sheets sheet_name in
    if eqb name sheet_name then some (i + 1) else later

unfoldable pub get_sheet_index_by_name : List Bytes → Bytes → Option ℕ
unfolding index_from
get_sheet_index_by_name sheets sheet_name = index_from 0 sheets sheet_name

-- rows[1:], which panics on no rows
pub skip_title : List Row → Run (List Row)
skip_title [] = panic out_of_range
skip_title (title ∷ rows) = done rows

-- xlsx.GetRows(sheets[idx])
rows_at : (Bytes → List Row) → Option Bytes → Run (List Row)
rows_at get_rows (some name) = done (get_rows name)
rows_at get_rows none = panic out_of_range

-- The rows after the title of the sheet that is asked for; `none` is the error of a missing sheet.
rows_of : List Bytes → (Bytes → List Row) → Option ℕ → Run (Option (List Row))
unfolding rows_at skip_title
rows_of sheets get_rows none = done none
rows_of sheets get_rows (some idx) = do
  rows ← rows_at get_rows (get_elem? sheets idx)
  rest ← skip_title rows
  done (some rest)

-- The sheet part of ReadExcelIo: with no name the first sheet is read.
unfoldable pub read_rows : List Bytes → (Bytes → List Row) → Bytes → Run (Option (List Row))
unfolding rows_of
read_rows sheets get_rows [] = rows_of sheets get_rows (some 0)
read_rows sheets get_rows (c ∷ sheet_name) =
    rows_of sheets get_rows (get_sheet_index_by_name sheets (c ∷ sheet_name))

-- The batches of SaveDb: data[i:end] for i = 0, 1000, …, end at most len(data). One round of fuel
-- for each item is enough.
abbrev pub batch_size : ℕ
batch_size = 1000

batches_from {ℓ} : {A : Type ℓ} → ℕ → List A → List (List A)
batches_from zero rest = []
batches_from (suc fuel) [] = []
batches_from (suc fuel) (x ∷ rest) =
    take batch_size (x ∷ rest) ∷ batches_from fuel (drop batch_size (x ∷ rest))

pub batches {ℓ} : {A : Type ℓ} → List A → List (List A)
unfolding batches_from
batches xs = batches_from (length xs) xs

-- A table, and the transaction in which the batches are created one by one: `accepts` is whether the
-- database takes a batch into the table as it then stands, and `commits` whether Commit succeeds on the new
-- table.
module _ {ℓ} {A : Type ℓ} (accepts : List A → List A → Bool) (commits : List A → Bool) where
  create_batches : List A → List (List A) → Option (List A)
  create_batches table [] = some table
  create_batches table (b ∷ bs) =
      let rest = create_batches (table ++ b) bs in if accepts table b then rest else none

  -- The deferred Rollback or Commit; a Commit that fails leaves the table, and its error is dropped.
  close_transaction : List A → Option (List A) → List A × Bool
  close_transaction table none = (table, false)
  close_transaction table (some table') = (if commits table' then table' else table, true)

  -- SaveDb after the rows are read: the table, and whether there was no error.
  unfoldable pub save_db : List A → List A → List A × Bool
  unfolding create_batches close_transaction
  save_db table rows = close_transaction table (create_batches table (batches rows))
