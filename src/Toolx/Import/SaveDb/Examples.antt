-- ===== src/Toolx/Import/SaveDb/Examples.antt =====
-- A sheet of one person, imported into a table that takes one more row.
use sub_sdk.Base.{
  ℕ, pos, add64, ◌≡◌, refl, Bool, true, false, Option, none, some, List, [], ◌∷◌, done, panic,
  out_of_range, eqb, length, ltb,
}
use sub_sdk.Go.Text.{Bytes, bytes}
use sub_sdk.Toolx.Import.{Row, read_rows, save_db, batches, get_sheet_index_by_name}
use sub_sdk.Toolx.TagBody.{get_tag, get_field_by_tag}
use sub_sdk.Toolx.Import.Rows.{
  Entries, string_kind, uint64_kind, set_entry, create_map, row_info, put_cells, Value, text,
  int_id, char_id, put_fields, convert, kind_of, gen_data_int, gen_data_char, start_id,
}
use sub_sdk.Toolx.Import.SaveDb.{
  ExcelStruct, gen_data, data_of, read_excel_io, save_rows, save_db_by_name,
}

abbrev person : ExcelStruct
person = record {
  model =
      (record { field = record { name = bytes "Id"; json = []; comment = [] }; kind = uint64_kind })
      ∷ (record {
        field = record { name = bytes "Name"; json = bytes "name"; comment = [] };
        kind = string_kind;
      })
      ∷ [];
  id_is_int = true;
  info = [];
}

-- The same struct after it was imported once.
abbrev person_again : ExcelStruct
person_again = record {
  model = person.model;
  id_is_int = true;
  info = ((bytes "name", bytes "Ann") ∷ []) ∷ [];
}

abbrev sheets : List Bytes
sheets = bytes "s" ∷ []

abbrev get_rows : Bytes → List Row
get_rows name = (bytes "name" ∷ []) ∷ (bytes "Ann" ∷ []) ∷ []

abbrev no_number : Bytes → Option ℕ
no_number s = none

abbrev uuid : ℕ → Bytes
uuid i = bytes "u"

abbrev Record : Type 0
Record = Entries (Value ℕ ℕ)

abbrev always : List Record → Bool
always table = true

abbrev all : List Record → Bool
all made = true

abbrev none_at_all : List Record → Bool
none_at_all made = false

abbrev has_room : List Record → List Record → Bool
has_room table batch = ltb (length table) 1

infos : create_map person.model ((bytes "Ann" ∷ []) ∷ []) ≡ ((bytes "name", bytes "Ann") ∷ []) ∷ []
unfolding create_map row_info put_cells set_entry get_tag eqb
infos = refl

abbrev ann : Record
ann = (bytes "Id", int_id (pos 7)) ∷ (bytes "Name", text (bytes "Ann")) ∷ []

-- A full table keeps its row; a sheet that is not there is an error; a workbook without one panics;
-- a Commit that fails is no error; records that have no JSON are one.
runs :
    (save_db_by_name no_number no_number no_number uuid all has_room always
        (some sheets)
        get_rows
        person
        (some (pos 6))
        []
        []
      ≡ done (ann ∷ [], true))
    × (save_db_by_name no_number no_number no_number uuid all has_room always
          (some sheets)
          get_rows
          person
          (some (pos 6))
          []
          (ann ∷ [])
        ≡ done (ann ∷ [], false))
    × (save_db_by_name no_number no_number no_number uuid all has_room always
          (some sheets)
          get_rows
          person
          none
          (bytes "t")
          []
        ≡ done ([], false))
    × (save_db_by_name no_number no_number no_number uuid all has_room always
          (some [])
          get_rows
          person
          none
          []
          []
        ≡ panic out_of_range)
    × (save_db_by_name no_number no_number no_number uuid all has_room always none get_rows person
          none [] []
        ≡ done ([], false))
    × (save_db_by_name no_number no_number no_number uuid all has_room none_at_all
          (some sheets)
          get_rows
          person
          none
          []
          []
        ≡ done ([], true))
    × (save_db_by_name no_number no_number no_number uuid none_at_all has_room always
          (some sheets)
          get_rows
          person
          none
          []
          []
        ≡ done ([], false))
unfolding save_db_by_name read_excel_io data_of gen_data save_rows read_rows save_db batches
    get_sheet_index_by_name create_map row_info put_cells set_entry get_tag get_field_by_tag
    gen_data_int start_id put_fields convert kind_of add64 eqb
runs = (refl, refl, refl, refl, refl, refl, refl)

-- A struct that is used again adds the rows of its first import once more.
again :
    save_db_by_name no_number no_number no_number uuid all has_room always
      (some sheets)
      get_rows
      person_again
      (some (pos 6))
      []
      []
    ≡ done
        (ann ∷ ((bytes "Id", int_id (pos 8)) ∷ (bytes "Name", text (bytes "Ann")) ∷ []) ∷ [], true)
unfolding save_db_by_name read_excel_io data_of gen_data save_rows read_rows save_db batches
    get_sheet_index_by_name create_map row_info put_cells set_entry get_tag get_field_by_tag
    gen_data_int start_id put_fields convert kind_of add64 eqb
again = refl

with_uuid :
    gen_data no_number no_number no_number uuid all false person.model none
      (((bytes "name", bytes "Ann") ∷ []) ∷ [])
    ≡ done (((bytes "Id", char_id (bytes "u")) ∷ (bytes "Name", text (bytes "Ann")) ∷ []) ∷ [])
unfolding gen_data gen_data_char put_fields convert kind_of set_entry get_field_by_tag get_tag eqb
with_uuid = refl
