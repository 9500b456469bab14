-- ===== src/Gormx/Query.antt =====
-- gormx/query.go: the fields of a query struct, by their search tags, become conditions.
-- Reflection is shown as data: a struct is its fields in order, each with its search tag if it has
-- one, and what `String()` gives for it. A field of another kind shows whether it is zero, what `String()` gives, and which value it is. A field
-- whose name is not exported is `hidden`: reflection shows the same of it, but its Interface() panics.
pub mod Placeholders
pub mod Joins
mod Steps
pub mod Returns
mod Examples
use sub_sdk.Base.{
  ℕ, Bool, true, false, ◌&&◌, ◌||◌, Option, none, some, List, [], ◌∷◌, ◌++◌, Run, done, panic,
  not_struct, not_exported, out_of_range, nil_interface, ◌>>=◌, ◌>>◌, eqb, if◌then◌else◌,
}
use sub_sdk.Go.Text.{Bytes, bytes}
use sub_sdk.Go.Case.{to_lower}
use sub_sdk.Gormx.Tag.{SearchTag, make_tag}
use sub_sdk.Gormx.Condition.{
  Arg, pattern_text, value, Public, Join, Conditions, Target, nil_target, join_target, root_target,
  empty_public, set_where, set_order,
}

mutual
  pub data Value : Type 0 where
    text : Bytes → Value
    other : Bool → Bytes → ℕ → Value
    struct : Bytes → Fields → Value
    hidden : Value → Value

  pub data Fields : Type 0 where
    end : Fields
    field : Option Bytes → Value → Fields → Fields

unfoldable mutual
  -- reflect.Value.IsZero
  pub is_zero : Value → Bool
  is_zero (text []) = true
  is_zero (text (c ∷ s)) = false
  is_zero (other zero shown id) = zero
  is_zero (struct name fs) = all_zero fs
  is_zero (hidden v) = is_zero v

  pub all_zero : Fields → Bool
  all_zero end = true
  all_zero (field tag v fs) = is_zero v && all_zero fs

-- reflect.Value.String
abbrev pub shown : Value → Bytes
shown (text s) = s
shown (other zero s id) = s
shown (struct s fs) = s
shown (hidden v) = shown v

-- reflect.Value.Interface
interface : Value → Run Value
interface (hidden v) = panic not_exported
interface v = done v

-- The values of `t.Type` that the switch knows.
pub data Kind : Type 0 where
  left_join inner_joins exact contains greater greater_eq less less_eq starts_with ends_with in_list
        is_null order unknown_kind :
      Kind

unfoldable pub search_kind : Bytes → Kind
search_kind t =
    if eqb t (bytes "left")
    then left_join
    else if eqb t (bytes "inner")
    then inner_joins
    else if eqb t (bytes "exact") || eqb t (bytes "iexact")
    then exact
    else if eqb t (bytes "contains") || eqb t (bytes "icontains")
    then contains
    else if eqb t (bytes "gt")
    then greater
    else if eqb t (bytes "gte")
    then greater_eq
    else if eqb t (bytes "lt")
    then less
    else if eqb t (bytes "lte")
    then less_eq
    else if eqb t (bytes "startswith") || eqb t (bytes "istartswith")
    then starts_with
    else if eqb t (bytes "endswith") || eqb t (bytes "iendswith")
    then ends_with
    else if eqb t (bytes "in")
    then in_list
    else if eqb t (bytes "isnull")
    then is_null
    else if eqb t (bytes "order")
    then order
    else unknown_kind

-- driver == Postgres
abbrev pub is_postgres : Bytes → Bool
is_postgres driver = eqb driver (bytes "postgres")

-- The quotes round a name, double ones in Postgres.
quote : Bytes → Bytes → Bytes
quote driver name =
    if is_postgres driver then b'"' ∷ (name ++ (b'"' ∷ [])) else b'`' ∷ (name ++ (b'`' ∷ []))

unfoldable pub format_column : Bytes → Bytes → Bytes → Bytes
unfolding quote
format_column driver table column = quote driver table ++ (b'.' ∷ quote driver column)

-- The join condition: on[0] and on[1] are read, and panic if they are not there.
pub format_join : Bytes → Bytes → Bytes → List Bytes → Bytes → Run Bytes
format_join kind driver join_table (a ∷ b ∷ on) table = done (
    kind
    ++ (quote driver join_table
        ++ (bytes " ON "
            ++ (format_column driver join_table a
                ++ (bytes " = " ++ format_column driver table b)))))
format_join kind driver join_table on table = panic out_of_range

pub format_join_sql : Bytes → Bytes → List Bytes → Bytes → Run Bytes
unfolding format_join
format_join_sql = format_join (bytes "LEFT JOIN ")

pub format_inner_joins : Bytes → Bytes → List Bytes → Bytes → Run Bytes
unfolding format_join
format_inner_joins = format_join (bytes "INNER JOIN ")

-- The comparison operator of a LIKE.
like : Bytes → Bytes
like driver = if is_postgres driver then bytes " ILIKE ?" else bytes " LIKE ?"

-- A WHERE clause with Interface() of the field as its argument, which is evaluated before the call.
set_value : Bytes → Value → Target Value → Run (Target Value)
unfolding interface
set_value clause v c = do x ← interface v; set_where clause (value x ∷ []) c

percent : Bytes
percent = b'%' ∷ []

-- What `e.Join = append(e.Join, join)` comes to once the join's fields are resolved.
append_join : Bytes → Bytes → Conditions Value → Target Value → Run (Target Value)
append_join t on c (join_target p) = done (
    root_target
      (record c { joins = c.joins ++ (record { join_type = t; join_on = on; public = p } ∷ []) }))
append_join t on c target = done target

-- SetJoinOn, and the field resolved into what it returns: a *GormCondition appends the join and
-- returns it, a *GormJoin returns nil, and a nil interface panics.
resolve_into :
    (Target Value → Run (Target Value)) → Bytes → Bytes → Target Value → Run (Target Value)
unfolding append_join
resolve_into inner t on nil_target = panic nil_interface
resolve_into inner t on (join_target p) = do inner nil_target; done (join_target p)
resolve_into inner t on (root_target c) = inner (join_target empty_public) >>= append_join t on c

-- The switch on the type of a tag whose field is `v`; `inner` resolves the field as a struct.
pub apply_kind :
    Bytes
    → SearchTag
    → Value
    → (Target Value → Run (Target Value))
    → Kind
    → Target Value
    → Run (Target Value)
unfolding resolve_into like percent set_value format_join_sql format_inner_joins
apply_kind driver t v inner left_join c = do
  join_sql ← format_join_sql driver t.join t.on t.table
  resolve_into inner t.type join_sql c
apply_kind driver t v inner inner_joins c = do
  join_sql ← format_inner_joins driver t.join t.on t.table
  resolve_into inner t.type join_sql c
apply_kind driver t v inner exact c =
    set_value (format_column driver t.table t.column ++ bytes " = ?") v c
apply_kind driver t v inner contains c =
    set_where (format_column driver t.table t.column ++ like driver)
      (pattern_text (percent ++ (shown v ++ percent)) ∷ []) c
apply_kind driver t v inner greater c =
    set_value (format_column driver t.table t.column ++ bytes " > ?") v c
apply_kind driver t v inner greater_eq c =
    set_value (format_column driver t.table t.column ++ bytes " >= ?") v c
apply_kind driver t v inner less c =
    set_value (format_column driver t.table t.column ++ bytes " < ?") v c
apply_kind driver t v inner less_eq c =
    set_value (format_column driver t.table t.column ++ bytes " <= ?") v c
apply_kind driver t v inner starts_with c =
    set_where (format_column driver t.table t.column ++ like driver)
      (pattern_text (shown v ++ percent) ∷ []) c
apply_kind driver t v inner ends_with c =
    set_where (format_column driver t.table t.column ++ like driver)
      (pattern_text (percent ++ shown v) ∷ []) c
apply_kind driver t v inner in_list c =
    set_value (format_column driver t.table t.column ++ bytes " in (?)") v c
-- The field is not zero here, so the test on it passes before `IsNil` is asked.
apply_kind driver t v inner is_null c =
    set_where (format_column driver t.table t.column ++ bytes " is null") [] c
apply_kind driver t v inner order c =
    let order_value = to_lower (shown v) in
    if eqb order_value (bytes "desc") || eqb order_value (bytes "asc")
    then set_order (format_column driver t.table t.column ++ (b' ' ∷ order_value)) c
    else done c
apply_kind driver t v inner unknown_kind c = done c

-- One field: with no tag its value is resolved in place, a tag "-" and a zero value are skipped.
pub resolve_field :
    Bytes
    → Option Bytes
    → Value
    → (Target Value → Run (Target Value))
    → Target Value
    → Run (Target Value)
unfolding apply_kind
resolve_field driver none v inner c = inner c
resolve_field driver (some tag) v inner c =
    if eqb tag (bytes "-")
    then done c
    else if is_zero v
    then done c
    else apply_kind driver (make_tag tag) v inner (search_kind (make_tag tag).type) c

-- ResolveSearchQuery of Interface() of a field: that panics on a field that is not exported; on a value that is
-- no struct, the first call of reflection panics.
mutual
  unfolding resolve_field

  pub resolve_value : Bytes → Value → Target Value → Run (Target Value)
  resolve_value driver (text s) c = panic not_struct
  resolve_value driver (other zero s id) c = panic not_struct
  resolve_value driver (hidden v) c = panic not_exported
  resolve_value driver (struct name fs) c = resolve_search_query driver fs c

  pub resolve_search_query : Bytes → Fields → Target Value → Run (Target Value)
  resolve_search_query driver end c = done c
  resolve_search_query driver (field tag v fs) c =
      resolve_field driver tag v (resolve_value driver v) c >>= resolve_search_query driver fs
