-- ===== src/Toolx/Examples.antt =====
-- A small model and a small workbook.
use sub_sdk.Base.{
  ℕ, ◌≡◌, ◌⊎◌, ◌++◌, Bool, true, false, some, List, [], ◌∷◌, done, panic, out_of_range, ◌>>=◌,
  length, ltb,
}
use sub_sdk.Go.Text.{Bytes, bytes}
use sub_sdk.Toolx.TagBody.{StructField}
use sub_sdk.Toolx.Import.{Row, skip_title, read_rows, save_db}
use sub_sdk.Toolx.Import.Sheets.{read_rows_next_sheet}
use sub_sdk.Toolx.Import.Batches.{save_db-atomic}

abbrev user_fields : List StructField
user_fields =
    record { name = bytes "Id"; json = []; comment = [] }
    ∷ record { name = bytes "Name"; json = bytes "name"; comment = bytes "姓名" }
    ∷ []

abbrev sheet_rows : Bytes → List Row
sheet_rows name = (name ∷ []) ∷ (bytes "row" ∷ name ∷ []) ∷ []

read_rows_next_sheet_example :
    (read_rows (bytes "users" ∷ bytes "roles" ∷ []) sheet_rows (bytes "users")
      ≡ (skip_title (sheet_rows (bytes "roles")) >>= λ rows. done (some rows)))
    × (read_rows (bytes "users" ∷ []) sheet_rows (bytes "users") ≡ panic out_of_range)
read_rows_next_sheet_example =
    read_rows_next_sheet [] [] b'u' (bytes "sers") (bytes "roles") sheet_rows tt

abbrev three_rows : List ℕ
three_rows = 1 ∷ 2 ∷ 3 ∷ []

-- A table that takes ten rows at most.
abbrev has_room : List ℕ → List ℕ → Bool
has_room table rows = ltb (length (table ++ rows)) 10

abbrev commits : List ℕ → Bool
commits table = true

save_db-atomic_example :
    ((commits ((9 ∷ []) ++ three_rows) ≡ true)
      × (save_db has_room commits (9 ∷ []) three_rows ≡ (9 ∷ 1 ∷ 2 ∷ 3 ∷ [], true)))
    ⊎ (((commits ((9 ∷ []) ++ three_rows) ≡ false)
          × (save_db has_room commits (9 ∷ []) three_rows ≡ (9 ∷ [], true)))
        ⊎ (save_db has_room commits (9 ∷ []) three_rows ≡ (9 ∷ [], false)))
save_db-atomic_example = save_db-atomic has_room commits (9 ∷ []) three_rows
