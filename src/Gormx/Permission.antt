-- ===== src/Gormx/Permission.antt =====
-- gormx/datapermission.go: the rows that a user may see.
pub mod Parentheses
use sub_sdk.Base.{ℕ, suc, List, [], ◌∷◌, ◌++◌, ◌==◌, eqb, if◌then◌else◌}
use sub_sdk.Go.Text.{Bytes, bytes}
use sub_sdk.Gormx.Scope.{Call, where_call}

module _ {ℓ} (V : Type ℓ) where
  pub record DataPermission : Type ℓ where
    pub data_scope : Bytes
    pub user_id : V
    pub dept_id : V
    pub role_id : V
    pub data_filter : Bytes

-- The three constant texts behind a table's name.
pub department : Bytes
department = bytes ".create_by in (SELECT user_id from admin_user where dept_id = ? )"

pub department_tree : Bytes
department_tree =
    bytes ".create_by in (SELECT user_id from admin_user "
    ++ (bytes "where admin_user.dept_id in "
        ++ (bytes "(with RECURSIVE temp_child as "
            ++ (bytes "(select * from admin_dept where id = ?  union all "
                ++ (bytes "select c.* from admin_dept as c,temp_child t where c.parent_id=t.id) "
                    ++ bytes "select id from temp_child)"))))

pub own : Bytes
own = bytes ".create_by = ?"

-- The calls that the scope of PermissionData makes.
pub permission_data {ℓ} : {V : Type ℓ} → Bytes → DataPermission V → List (Call V)
unfolding department department_tree own
permission_data table p =
    if eqb p.data_scope (bytes "2")
    then where_call (table ++ (bytes ".create_by in " ++ (b'(' ∷ (p.data_filter ++ (b')' ∷ [])))))
        []
      ∷ []
    else if eqb p.data_scope (bytes "3")
    then where_call (table ++ department) (p.dept_id ∷ []) ∷ []
    else if eqb p.data_scope (bytes "4")
    then where_call (table ++ department_tree) (p.dept_id ∷ []) ∷ []
    else if eqb p.data_scope (bytes "5")
    then where_call (table ++ own) (p.user_id ∷ []) ∷ []
    else []
