-- ===== src/Gormx/Query/Examples.antt =====
-- A query on ages, and queries with joins.
use sub_sdk.Base.{◌≡◌, refl, false, some, [], ◌∷◌, done, panic, not_exported, inl, inr, arith, eqb}
use sub_sdk.Go.Text.{Bytes, bytes}
use sub_sdk.Go.Case.{to_lower}
use sub_sdk.Go.Split.{split}
use sub_sdk.Gormx.Tag.{make_tag}
use sub_sdk.Gormx.Condition.{
  Conditions, Target, root_target, empty_public, value, set_where, set_clause,
}
use sub_sdk.Gormx.Query.{
  Value, other, struct, hidden, Fields, end, field, resolve_search_query, is_zero, search_kind,
  format_column,
}
use sub_sdk.Gormx.Query.Placeholders.{IsBoundTarget, resolve_search_query-IsBound}
use sub_sdk.Gormx.Query.Returns.{resolve_search_query_returns}

abbrev mysql : Bytes
mysql = bytes "mysql"

abbrev age_tag : Bytes
age_tag = bytes "type:gt;column:age;table:user"

abbrev ages : Fields
ages = field (some age_tag) (other false (bytes "<int Value>") 18) end

abbrev no_conditions : Conditions Value
no_conditions = record { public = empty_public; joins = [] }

abbrev age_condition : Target Value
age_condition = root_target (record {
  public = record {
    where_clauses =
        (bytes "`user`.`age` > ?", value (other false (bytes "<int Value>") 18) ∷ []) ∷ [];
    order = [];
    or_clauses = [];
  };
  joins = [];
})

ages_resolved : resolve_search_query mysql ages (root_target no_conditions) ≡ done age_condition
unfolding resolve_search_query make_tag split is_zero search_kind format_column set_where set_clause
    eqb
ages_resolved = refl

resolve_search_query-IsBound_example : IsBoundTarget age_condition
resolve_search_query-IsBound_example =
    resolve_search_query-IsBound mysql ages (root_target no_conditions) age_condition
      ((unfold make_tag split eqb in ground arith), tt, tt) ((tt, tt), tt) ages_resolved

abbrev dept_tag : Bytes
dept_tag = bytes "type:left;table:user;join:dept"

abbrev eighteen : Value
eighteen = other false (bytes "<int Value>") 18

abbrev dept_on_tag : Bytes
dept_on_tag = bytes "type:left;table:user;join:dept;on:id:dept_id"

abbrev joined_ages : Fields
joined_ages = field (some dept_on_tag) (struct (bytes "<Ages Value>") ages) ages

resolve_search_query_returns_example :
    (d : Conditions Value) × (resolve_search_query mysql joined_ages (root_target no_conditions)
      ≡ done (root_target d))
resolve_search_query_returns_example =
    resolve_search_query_returns mysql joined_ages no_conditions (
      inr (
        (unfold make_tag split search_kind eqb in refl),
        (unfold make_tag split eqb in omega arith),
        ((unfold make_tag split search_kind eqb in refl), tt, tt),
      ),
      (inl ((unfold make_tag split search_kind eqb in refl), tt), tt),
    )

-- A field that is not exported panics if its value is asked for, and not if its text is.
hidden_ages :
    (resolve_search_query mysql
        (field (some age_tag) (hidden eighteen) end)
        (root_target no_conditions)
      ≡ panic not_exported)
    × (resolve_search_query mysql
          (field (some (bytes "type:order;column:age")) (hidden eighteen) end)
          (root_target no_conditions)
        ≡ done (root_target no_conditions))
unfolding resolve_search_query make_tag split is_zero search_kind format_column set_where set_clause
    eqb to_lower
hidden_ages = (refl, refl)
