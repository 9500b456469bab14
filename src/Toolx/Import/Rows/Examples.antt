-- ===== src/Toolx/Import/Rows/Examples.antt =====
-- Two rows of persons, with a name and an age, after the id 41.
use sub_sdk.Base.{ℕ, pos, add64, ◌≡◌, refl, Option, none, some, List, [], ◌∷◌, done, eqb}
use sub_sdk.Go.Text.{Bytes, bytes}
use sub_sdk.Toolx.TagBody.{get_tag, get_field_by_tag}
use sub_sdk.Toolx.Import.Rows.{
  Entries, set_entry, put_cells, row_info, create_map, ModelField, FieldKind, string_kind,
  uint64_kind, kind_of, text, uint, int_id, char_id, convert, put_field, put_fields, gen_int_from,
  start_id, gen_data_int, gen_data_char,
}
use sub_sdk.Toolx.Import.Rows.Ids.{KeyIsNotId}

abbrev column : Bytes → Bytes → FieldKind → ModelField
column name json kind = record {
  field = record { name = name; json = json; comment = [] };
  kind = kind;
}

abbrev person : List ModelField
person =
    column (bytes "Id") [] uint64_kind
    ∷ column (bytes "Name") (bytes "name") string_kind
    ∷ column (bytes "Age") (bytes "age") uint64_kind
    ∷ []

abbrev infos : List (Entries Bytes)
infos =
    ((bytes "name", bytes "Ann") ∷ (bytes "age", bytes "7") ∷ [])
    ∷ ((bytes "name", bytes "Bob") ∷ [])
    ∷ []

mapped : create_map person ((bytes "Ann" ∷ bytes "7" ∷ []) ∷ (bytes "Bob" ∷ []) ∷ []) ≡ infos
unfolding create_map row_info put_cells set_entry get_tag eqb
mapped = refl

abbrev no_number : Bytes → Option ℕ
no_number s = none

abbrev seven : Bytes → Option ℕ
seven s = some 7

generated :
    gen_data_int {F = ℕ} {T = ℕ} no_number seven no_number person (some (pos 41)) infos
    ≡ done (
        ((bytes "Id", int_id (pos 42))
          ∷ (bytes "Name", text (bytes "Ann"))
          ∷ (bytes "Age", uint 7)
          ∷ [])
        ∷ ((bytes "Id", int_id (pos 43)) ∷ (bytes "Name", text (bytes "Bob")) ∷ [])
        ∷ [])
unfolding add64 gen_data_int gen_int_from start_id put_fields put_field convert kind_of set_entry
    get_field_by_tag get_tag eqb
generated = refl

-- A text that does not parse leaves its field out.
with_char_ids :
    gen_data_char {F = ℕ} {T = ℕ} no_number no_number no_number person (λ i. bytes "u") 0 infos
    ≡ done (
        ((bytes "Id", char_id (bytes "u")) ∷ (bytes "Name", text (bytes "Ann")) ∷ [])
        ∷ ((bytes "Id", char_id (bytes "u")) ∷ (bytes "Name", text (bytes "Bob")) ∷ [])
        ∷ [])
unfolding gen_data_char put_fields put_field convert kind_of set_entry get_field_by_tag get_tag eqb
with_char_ids = refl

name_key : (v : Bytes) → KeyIsNotId person (bytes "name", v)
unfolding get_field_by_tag get_tag eqb
name_key v = (some (bytes "Name"), refl, refl)

age_key : (v : Bytes) → KeyIsNotId person (bytes "age", v)
unfolding get_field_by_tag get_tag eqb
age_key v = (some (bytes "Age"), refl, refl)
