-- ===== src/Gormx/Examples.antt =====
-- Scopes on a query of users.
use sub_sdk.Base.{
  true, ℕ, suc, ◌*◌, ◌≡◌, refl, pos, done, List, [], ◌∷◌, some, none, inl, take, All, arith, eqb,
  false,
}
use sub_sdk.Go.Text.{Bytes, bytes}
use sub_sdk.Go.Split.{split}
use sub_sdk.Gormx.Tag.{make_tag}
use sub_sdk.Gormx.Condition.{Arg}
use sub_sdk.Gormx.Query.{Value, other, struct, Fields, end, field, search_kind}
use sub_sdk.Gormx.Scope.{order_call, sort_by}
use sub_sdk.Gormx.Scope.Pages.{get_page_index, get_page_size}
use sub_sdk.Gormx.Scope.{Call, where_call, make_condition, get_sort_by}
use sub_sdk.Gormx.Scope.Pages.{pages, pages_lem}
use sub_sdk.Gormx.Scope.Bound.{IsBoundCall, make_condition-IsBoundCall}
use sub_sdk.Gormx.Permission.{DataPermission, permission_data}
use sub_sdk.Gormx.Permission.Parentheses.{
  count, IsBalancedCall, permission_data_balanced, department_tree_unbalanced,
}

abbrev seven : List ℕ
seven = 1 ∷ 2 ∷ 3 ∷ 4 ∷ 5 ∷ 6 ∷ 7 ∷ []

pages_lem_example : pages (pos 3) 2 seven ≡ take (2 * 3) seven
pages_lem_example = pages_lem 3 2 seven (omega arith) (omega arith) (omega arith)

abbrev age : Fields
age =
    field (some (bytes "type:gt;column:age;table:user")) (other false (bytes "<int Value>") 18) end

make_condition-IsBoundCall_example :
    (calls : List (Call (Arg Value))) × (make_condition
        (struct (bytes "<Age Value>") age)
        (bytes "mysql")
      ≡ done calls)
    × All IsBoundCall calls
make_condition-IsBoundCall_example =
    make_condition-IsBoundCall (bytes "mysql") (bytes "<Age Value>") age
      (inl ((unfold make_tag split search_kind eqb in refl), tt), tt)
      ((unfold make_tag split eqb in ground arith), tt, tt)

abbrev by_scope : Bytes → DataPermission ℕ
by_scope s = record {
  data_scope = s;
  user_id = 7;
  dept_id = 3;
  role_id = 1;
  data_filter = bytes "1,2";
}

permission_data_balanced_example :
    All IsBalancedCall (permission_data (bytes "user") (by_scope (bytes "3")))
permission_data_balanced_example =
    permission_data_balanced (bytes "user") (by_scope (bytes "3")) (λ e. ground arith)
      (unfold count in refl) (unfold count in refl)

department_tree_unbalanced_example :
    (k : Bytes) × (permission_data (bytes "user") (by_scope (bytes "4"))
      ≡ where_call k (3 ∷ []) ∷ [])
    × (count b'(' k ≡ suc (count b')' k))
department_tree_unbalanced_example =
    department_tree_unbalanced (bytes "user") (by_scope (bytes "4")) refl (unfold count in refl)

sorted_by_column :
    get_sort_by
      (record { search = none; json = bytes "age" }
        ∷ record { search = some (bytes "column:user_age"); json = bytes "age" }
        ∷ [])
      (bytes "age")
    ≡ bytes "user_age"
unfolding get_sort_by make_tag split eqb
sorted_by_column = refl

first_page :
    (sort_by {V = ℕ} (bytes "age") true ≡ order_call (bytes "age DESC") ∷ [])
    × ((get_page_index (record { page_index = pos 0; page_size = pos 0 })).0 ≡ pos 1)
    × ((get_page_size (record { page_index = pos 0; page_size = pos 0 })).0 ≡ pos 10)
unfolding sort_by get_page_index get_page_size
first_page = (refl, refl, refl)
