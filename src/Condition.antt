-- ===== src/Condition.antt =====
-- condition/condition.go: a list of conditions judged against the fields of a struct.
pub mod Verdicts
mod Examples
use sub_sdk.Base.{
  ℤ, eqz, ltz, lez, Bool, true, false, not, ◌&&◌, ◌||◌, Option, none, some, List, [], ◌∷◌, Run,
  done, panic, bad_assertion, ◌>>=◌, eqb, if◌then◌else◌, ℕ,
}
use sub_sdk.Go.Text.{Bytes, bytes}
use sub_sdk.Go.Number.{parse_int}

-- An `interface{}` value: a string, or a value of another type.
pub data Value : Type 0 where
  text : Bytes → Value
  other_value : Value

pub record Condition : Type 0 where
  pub field : Bytes
  pub operator : Bytes
  pub value : Value
  pub logic : Bytes

-- What reflection shows of a field: a string, a signed integer of any width, or another kind.
pub data FieldValue : Type 0 where
  string : Bytes → FieldValue
  int : ℤ → FieldValue
  other_kind : FieldValue

-- The struct behind the pointer `link`, as its named fields.
abbrev pub Struct : Type 0
Struct = List (Bytes × FieldValue)

-- val.FieldByName(name), `none` where the value is not valid
pub field_by_name : Struct → Bytes → Option FieldValue
field_by_name [] name = none
field_by_name ((n, v) ∷ fields) name = if eqb n name then some v else field_by_name fields name

pub compare_string : Bytes → Bytes → Bytes → Bool
compare_string a operator b =
    if eqb operator (bytes "=")
    then eqb a b
    else if eqb operator (bytes "!=")
    then not (eqb a b)
    else false

pub compare_int : ℤ → Bytes → ℤ → Bool
compare_int a operator b =
    if eqb operator (bytes "=")
    then eqz a b
    else if eqb operator (bytes "!=")
    then not (eqz a b)
    else if eqb operator (bytes "<")
    then ltz a b
    else if eqb operator (bytes "<=")
    then lez a b
    else if eqb operator (bytes ">")
    then ltz b a
    else if eqb operator (bytes ">=")
    then lez b a
    else false

-- cond.Value.(string)
pub as_string : Value → Run Bytes
as_string (text s) = done s
as_string other_value = panic bad_assertion

-- `none` where the text is no int64, and the loop goes on
match_parsed : ℤ → Bytes → Option ℤ → Option Bool
match_parsed a operator none = none
match_parsed a operator (some b) = some (compare_int a operator b)

match_kind : Condition → FieldValue → Run (Option Bool)
match_kind c (string a) = do b ← as_string c.value; done (some (compare_string a c.operator b))
match_kind c (int a) = do s ← as_string c.value; done (match_parsed a c.operator (parse_int s))
match_kind c other_kind = done (some false)

match_found : Condition → Option FieldValue → Run (Option Bool)
match_found c none = done none
match_found c (some v) = match_kind c v

-- The value of `match` for one condition, `none` where the loop skips it.
pub match_condition : Struct → Condition → Run (Option Bool)
unfolding match_kind match_found match_parsed as_string
match_condition link c = match_found c (field_by_name link c.field)

-- The update of `result`, and whether the loop breaks.
pub combine : Bytes → Bool → Bool → Bool × Bool
combine logic result matched =
    if eqb logic (bytes "AND")
    then (result && matched, not (result && matched))
    else if eqb logic (bytes "OR")
    then (result || matched, result || matched)
    else (matched, false)

resume : (Bool → Run Bool) → Bool × Bool → Run Bool
resume rest (result, true) = done result
resume rest (result, false) = rest result

after_match : (Bool → Run Bool) → Bytes → Bool → Option Bool → Run Bool
after_match rest logic result none = rest result
after_match rest logic result (some matched) = resume rest (combine logic result matched)

evaluate_from : Struct → List Condition → Bool → Run Bool
unfolding after_match resume combine
evaluate_from link [] result = done result
evaluate_from link (c ∷ cs) result =
    match_condition link c >>= after_match (evaluate_from link cs) c.logic result

pub evaluate_condition : Struct → List Condition → Run Bool
evaluate_condition link conditions = evaluate_from link conditions true
