-- ===== src/Toolx/Import/SaveDb.antt =====
-- toolx/excelImport.go ReadExcelIo, SaveDb and SaveDbByName as a whole: the sheet, the maps, the records, the batches.
mod Examples
pub mod Whole
use sub_sdk.Base.{
  ℕ, ℤ, Bool, true, false, if◌then◌else◌, Option, none, some, List, [], ◌∷◌, ◌++◌, Run, done, panic,
  ◌>>=◌,
}
use sub_sdk.Go.Text.{Bytes}
use sub_sdk.Toolx.Import.{Row, read_rows, save_db}
use sub_sdk.Toolx.Import.Rows.{Entries, ModelField, Value, create_map, gen_data_int, gen_data_char}

-- ExcelStruct as an import finds it: the model, whether its ids are integers, and the maps that earlier
-- imports with the same struct have left, which CreateMap appends to.
pub record ExcelStruct : Type 0 where
  pub model : List ModelField
  pub id_is_int : Bool
  pub info : List (Entries Bytes)

module _ {F T : Type 0} (parse_float : Bytes → Option F) (parse_uint : Bytes → Option ℕ)
    (parse_time : Bytes → Option T) (new_id : ℕ → Bytes)
    (marshals : List (Entries (Value F T)) → Bool) where
  -- excel.Data after the rows are mapped.
  gen_data :
      Bool → List ModelField → Option ℤ → List (Entries Bytes) → Run (List (Entries (Value F T)))
  gen_data true model max_id infos =
      gen_data_int parse_float parse_uint parse_time model max_id infos
  gen_data false model max_id infos =
      gen_data_char parse_float parse_uint parse_time model new_id 0 infos

  -- From the maps on; `none` is an error of json.Marshal(excel.Data).
  data_of : ExcelStruct → Option ℤ → Option (List Row) → Run (Option (List (Entries (Value F T))))
  unfolding gen_data
  data_of excel max_id none = done none
  data_of excel max_id (some rows) = do
    made ← gen_data excel.id_is_int excel.model max_id (excel.info ++ create_map excel.model rows)
    done (if marshals made then some made else none)

  -- ReadExcelIo. The workbook is the names of its sheets, `none` if it cannot be opened; a result `none`
  -- is that error, the error of a missing sheet, or that of json.Marshal.
  read_excel_io :
      Option (List Bytes)
      → (Bytes → List Row)
      → ExcelStruct
      → Option ℤ
      → Bytes
      → Run (Option (List (Entries (Value F T))))
  unfolding data_of read_rows
  read_excel_io none get_rows excel max_id sheet_name = done none
  read_excel_io (some sheets) get_rows excel max_id sheet_name = do
    rows ← read_rows sheets get_rows sheet_name
    data_of excel max_id rows

  module _ (accepts : List (Entries (Value F T)) → List (Entries (Value F T)) → Bool)
      (commits : List (Entries (Value F T)) → Bool) where
    save_rows :
        List (Entries (Value F T))
        → Option (List (Entries (Value F T)))
        → List (Entries (Value F T)) × Bool
    unfolding save_db
    save_rows table none = (table, false)
    save_rows table (some made) = save_db accepts commits table made

    -- SaveDbByName: the table, and whether there was no error.
    pub save_db_by_name :
        Option (List Bytes)
        → (Bytes → List Row)
        → ExcelStruct
        → Option ℤ
        → Bytes
        → List (Entries (Value F T))
        → Run (List (Entries (Value F T)) × Bool)
    unfolding read_excel_io save_rows
    save_db_by_name workbook get_rows excel max_id sheet_name table = do
      made ← read_excel_io workbook get_rows excel max_id sheet_name
      done (save_rows table made)
