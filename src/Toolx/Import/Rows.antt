-- ===== src/Toolx/Import/Rows.antt =====
-- toolx/excelImport.go CreateMap, GenDataInt and GenDataChar: a row as a map from json names to texts, and the map from
-- field names to values that is made of it. strconv.ParseFloat, strconv.ParseUint, time.Parse and uuid.New are
-- parameters.
pub mod Ids
mod Examples
use sub_sdk.Base.{
  ℕ, suc, ◌+◌, ℤ, pos, add64, ◌≡◌, ◌∙◌, ◌≢◌, ap, refl, sym, Bool, true, false, Option, none, some,
  List, [], ◌∷◌, ◌++◌, Run, done, panic, ◌>>=◌, eqb, eqb_eq, if◌then◌else◌, length, arith, All,
  Bool-cases, inl, inr,
}
use sub_sdk.Go.Text.{Bytes, bytes}
use sub_sdk.Toolx.Import.{Row}
use sub_sdk.Toolx.TagBody.{TagBody, StructField, get_tag, get_field_by_tag}

-- A Go map with texts as keys; the order is that of the first insertion.
abbrev pub Entries : Type 0 → Type 0
Entries V = List (Bytes × V)

unfoldable pub set_entry : {V : Type 0} → Bytes → V → Entries V → Entries V
set_entry k v [] = (k, v) ∷ []
set_entry k v ((j, w) ∷ m) = if eqb k j then (k, v) ∷ m else (j, w) ∷ set_entry k v m

unfoldable pub entry_of : {V : Type 0} → Bytes → Entries V → Option V
entry_of k [] = none
entry_of k ((j, w) ∷ m) = let rest = entry_of k m in if eqb k j then some w else rest

-- The reflect.Kind of a field, as far as the code looks at it.
pub data FieldKind : Type 0 where
  string_kind float64_kind uint64_kind struct_kind other_kind : FieldKind

pub record ModelField : Type 0 where
  pub field : StructField
  pub kind : FieldKind

-- The inner loop of CreateMap for a field of this name: the columns with their keys and cells. Once the
-- row is too short for a column it is so for all later ones. GetTag lists as many keys as fields.
unfoldable pub put_cells : Bytes → List Bytes → List Bytes → Row → Entries Bytes → Entries Bytes
unfolding set_entry
put_cells name [] keys row info = info
put_cells name (h ∷ field) [] row info = info
put_cells name (h ∷ field) (key ∷ keys) [] info = info
put_cells name (h ∷ field) (key ∷ keys) (cell ∷ row) info =
    put_cells name field keys row (if eqb name h then set_entry key cell info else info)

-- The loop over the fields of the model.
unfoldable pub row_info : TagBody → List ModelField → Row → Entries Bytes → Entries Bytes
unfolding put_cells
row_info tag [] row info = info
row_info tag (f ∷ model) row info =
    row_info tag model row (put_cells f.field.name tag.field tag.keys row info)

abbrev pub fields_of : List ModelField → List StructField
fields_of [] = []
fields_of (f ∷ model) = f.field ∷ fields_of model

unfoldable pub create_map : List ModelField → List Row → List (Entries Bytes)
unfolding row_info
create_map model [] = []
create_map model (row ∷ rows) =
    row_info (get_tag (fields_of model)) model row [] ∷ create_map model rows

-- t.FieldByName(field).Kind(); no such field has no kind of these.
unfoldable pub kind_of : List ModelField → Bytes → FieldKind
kind_of [] name = other_kind
kind_of (f ∷ model) name =
    let rest = kind_of model name in if eqb f.field.name name then f.kind else rest

abbrev pub id_name : Bytes
id_name = bytes "Id"

pub data Value (F T : Type 0) : Type 0 where
  text : Bytes → Value F T
  float : F → Value F T
  uint : ℕ → Value F T
  time : T → Value F T
  int_id : ℤ → Value F T
  char_id : Bytes → Value F T

-- The largest id of the table, or 0 if the query fails.
unfoldable pub start_id : Option ℤ → ℤ
start_id none = pos 0
start_id (some id) = id

module _ {F T : Type 0} (parse_float : Bytes → Option F) (parse_uint : Bytes → Option ℕ)
    (parse_time : Bytes → Option T) where
  abbrev parsed : {A : Type 0} → (A → Value F T) → Option A → Option (Value F T)
  parsed c none = none
  parsed c (some a) = some (c a)

  -- The switch on the kind; `none` leaves the field out.
  unfoldable pub convert : FieldKind → Bytes → Option (Value F T)
  convert string_kind v = some (text v)
  convert float64_kind v = parsed float (parse_float v)
  convert uint64_kind v = parsed uint (parse_uint v)
  convert struct_kind v = parsed time (parse_time v)
  convert other_kind v = none

  abbrev put_value : Bytes → Option (Value F T) → Entries (Value F T) → Entries (Value F T)
  put_value name none record_so_far = record_so_far
  put_value name (some x) record_so_far = set_entry name x record_so_far

  -- One key of the row and its text.
  put_field : List ModelField → Option Bytes → Bytes → Entries (Value F T) → Entries (Value F T)
  unfolding convert kind_of set_entry
  put_field model none v data_so_far = data_so_far
  put_field model (some name) v data_so_far =
      put_value name (convert (kind_of model name) v) data_so_far

  unfoldable pub put_fields :
      List ModelField → Entries Bytes → Entries (Value F T) → Run (Entries (Value F T))
  unfolding put_field
  put_fields model [] data_so_far = done data_so_far
  put_fields model ((k, v) ∷ info) data_so_far = do
    name ← get_field_by_tag (get_tag (fields_of model)) k
    put_fields model info (put_field model name v data_so_far)

  -- The loop of GenDataInt from the last id on.
  gen_int_from : List ModelField → ℤ → List (Entries Bytes) → Run (List (Entries (Value F T)))
  unfolding put_fields
  gen_int_from model id [] = done []
  gen_int_from model id (info ∷ infos) = do
    first ← put_fields model info ((id_name, int_id (add64 id (pos 1))) ∷ [])
    rest ← gen_int_from model (add64 id (pos 1)) infos
    done (first ∷ rest)

  unfoldable pub gen_data_int :
      List ModelField → Option ℤ → List (Entries Bytes) → Run (List (Entries (Value F T)))
  unfolding gen_int_from start_id
  gen_data_int model max_id infos = gen_int_from model (start_id max_id) infos

  -- The same with an id from uuid.New for each row.
  unfoldable pub gen_data_char :
      List ModelField → (ℕ → Bytes) → ℕ → List (Entries Bytes) → Run (List (Entries (Value F T)))
  unfolding put_fields
  gen_data_char model new_id i [] = done []
  gen_data_char model new_id i (info ∷ infos) = do
    first ← put_fields model info ((id_name, char_id (new_id i)) ∷ [])
    rest ← gen_data_char model new_id (suc i) infos
    done (first ∷ rest)
