-- ===== src/Converter.antt =====
-- converter/converter.go: the Go types of database types that are given by name.
pub mod Nullable
mod Examples
use sub_sdk.Base.{ℕ, Bool, true, false, not, Option, none, some, List, [], ◌∷◌, eqb, if◌then◌else◌}
use sub_sdk.Go.Text.{Bytes, bytes}
use sub_sdk.Go.Case.{to_lower}

-- commonMysqlDataTypeMapString
pub data_type_map : List (Bytes × Bytes)
data_type_map =
    (bytes "bool", bytes "bool")
    ∷ (bytes "boolean", bytes "bool")
    ∷ (bytes "tinyint", bytes "int64")
    ∷ (bytes "smallint", bytes "int64")
    ∷ (bytes "mediumint", bytes "int64")
    ∷ (bytes "int", bytes "int64")
    ∷ (bytes "int1", bytes "int64")
    ∷ (bytes "int2", bytes "int64")
    ∷ (bytes "int3", bytes "int64")
    ∷ (bytes "int4", bytes "int64")
    ∷ (bytes "int8", bytes "int64")
    ∷ (bytes "integer", bytes "int64")
    ∷ (bytes "bigint", bytes "int64")
    ∷ (bytes "float", bytes "float64")
    ∷ (bytes "float4", bytes "float64")
    ∷ (bytes "float8", bytes "float64")
    ∷ (bytes "double", bytes "float64")
    ∷ (bytes "decimal", bytes "float64")
    ∷ (bytes "dec", bytes "float64")
    ∷ (bytes "fixed", bytes "float64")
    ∷ (bytes "real", bytes "float64")
    ∷ (bytes "bit", bytes "byte")
    ∷ (bytes "date", bytes "time.Time")
    ∷ (bytes "datetime", bytes "time.Time")
    ∷ (bytes "timestamp", bytes "time.Time")
    ∷ (bytes "time", bytes "string")
    ∷ (bytes "year", bytes "int64")
    ∷ (bytes "linestring", bytes "string")
    ∷ (bytes "multilinestring", bytes "string")
    ∷ (bytes "nvarchar", bytes "string")
    ∷ (bytes "nchar", bytes "string")
    ∷ (bytes "char", bytes "string")
    ∷ (bytes "character", bytes "string")
    ∷ (bytes "varchar", bytes "string")
    ∷ (bytes "binary", bytes "string")
    ∷ (bytes "bytea", bytes "string")
    ∷ (bytes "longvarbinary", bytes "string")
    ∷ (bytes "varbinary", bytes "string")
    ∷ (bytes "tinytext", bytes "string")
    ∷ (bytes "text", bytes "string")
    ∷ (bytes "mediumtext", bytes "string")
    ∷ (bytes "longtext", bytes "string")
    ∷ (bytes "enum", bytes "string")
    ∷ (bytes "set", bytes "string")
    ∷ (bytes "json", bytes "string")
    ∷ (bytes "jsonb", bytes "string")
    ∷ (bytes "blob", bytes "string")
    ∷ (bytes "longblob", bytes "string")
    ∷ (bytes "mediumblob", bytes "string")
    ∷ (bytes "tinyblob", bytes "string")
    ∷ []

-- tp, ok := m[name]
pub type_in : List (Bytes × Bytes) → Bytes → Option Bytes
type_in [] name = none
type_in ((k, v) ∷ m) name = if eqb k name then some v else type_in m name

pub may_convert_null_type : Bytes → Bool → Bytes
may_convert_null_type t is_default_null =
    if not is_default_null
    then t
    else if eqb t (bytes "int64")
    then bytes "sql.NullInt64"
    else if eqb t (bytes "int32")
    then bytes "sql.NullInt32"
    else if eqb t (bytes "float64")
    then bytes "sql.NullFloat64"
    else if eqb t (bytes "bool")
    then bytes "sql.NullBool"
    else if eqb t (bytes "string")
    then bytes "sql.NullString"
    else if eqb t (bytes "time.Time")
    then bytes "sql.NullTime"
    else t

converted : Bool → Option Bytes → Option Bytes
converted is_default_null none = none
converted is_default_null (some t) = some (may_convert_null_type t is_default_null)

-- `none` is the error of an unknown type.
pub convert_string_data_type : Bytes → Bool → Option Bytes
unfolding converted
convert_string_data_type name is_default_null =
    converted is_default_null (type_in data_type_map (to_lower name))
