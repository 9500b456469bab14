-- ===== src/Gormx/Permission/Parentheses.antt =====
-- The parentheses of the permission texts.
use sub_sdk.Base.{
  ℕ, suc, ◌+◌, ◌≡◌, refl, List, [], ◌∷◌, ◌++◌, ◌==◌, eqb, if◌then◌else◌, All, arith, ◌≢◌, Bool,
  true, false, eqb_eq,
}
use sub_sdk.Go.Text.{Bytes, bytes}
use sub_sdk.Gormx.Scope.{Call, where_call}
use sub_sdk.Gormx.Permission.{DataPermission, department, department_tree, own, permission_data}

-- How often a byte stands in a text.
unfoldable pub count : ℕ → Bytes → ℕ
count b [] = 0
count b (c ∷ s) = if c == b then suc (count b s) else count b s

count-append : (b : ℕ) (s t : Bytes) → count b (s ++ t) ≡ count b s + count b t
unfolding count
count-append b [] t = omega arith
count-append b (c ∷ s) t = ground (arith, count-append b s t)

abbrev pub IsBalanced : Bytes → Type 0
IsBalanced s = count b'(' s ≡ count b')' s

abbrev pub IsBalancedCall {ℓ} : {V : Type ℓ} → Call V → Type 0
IsBalancedCall (where_call k v) = IsBalanced k
IsBalancedCall _ = Unit

behind : (table tail : Bytes) → IsBalanced table → IsBalanced tail → IsBalanced (table ++ tail)
behind table tail h k =
    omega (arith, count-append b'(' table tail, count-append b')' table tail, h, k)

filter_tail : Bytes → Bytes
filter_tail filter = bytes ".create_by in " ++ (b'(' ∷ (filter ++ (b')' ∷ [])))

filter_tail-IsBalanced : (filter : Bytes) → IsBalanced filter → IsBalanced (filter_tail filter)
unfolding filter_tail count
filter_tail-IsBalanced filter h =
    omega (arith, count-append b'(' filter (b')' ∷ []), count-append b')' filter (b')' ∷ []), h)

department-IsBalanced : IsBalanced department
unfolding department count
department-IsBalanced = refl

own-IsBalanced : IsBalanced own
unfolding own count
own-IsBalanced = refl

tree_counts : count b'(' department_tree ≡ suc (count b')' department_tree)
unfolding count department_tree
tree_counts = refl

module _ {ℓ} {V : Type ℓ} (table : Bytes) (p : DataPermission V) where
  -- One branch of the scope, and the branches after it.
  branch :
      (b : Bool) (k : Bytes) (v : List V) (rest : List (Call V))
      → (b ≡ true → IsBalanced k)
      → (b ≡ false → All IsBalancedCall rest)
      → All IsBalancedCall (if b then where_call k v ∷ [] else rest)
  branch true k v rest h r = (h refl, tt)
  branch false k v rest h r = r refl

  -- For a table and a filter with as many opening as closing parentheses, every text that
  -- `PermissionData` puts into a query has so too, if the scope is not "4".
  pub permission_data_balanced :
      p.data_scope ≢ bytes "4"
      → IsBalanced table
      → IsBalanced p.data_filter
      → All IsBalancedCall (permission_data table p)
  unfolding permission_data eqb filter_tail
  permission_data_balanced n h k =
      branch (eqb p.data_scope (bytes "2")) _ _ _
        (λ e. behind table (filter_tail p.data_filter) h (filter_tail-IsBalanced p.data_filter k))
        λ e2.
          branch (eqb p.data_scope (bytes "3")) _ _ _
            (λ e. behind table department h department-IsBalanced)
            λ e3.
              branch (eqb p.data_scope (bytes "4")) _ _ _
                (λ e. absurd (n (eqb_eq p.data_scope (bytes "4") e)))
                λ e4.
                  branch (eqb p.data_scope (bytes "5")) _ _ _
                    (λ e. behind table own h own-IsBalanced) λ e5. tt

  tree_call :
      p.data_scope ≡ bytes "4"
      → permission_data table p ≡ where_call (table ++ department_tree) (p.dept_id ∷ []) ∷ []
  unfolding permission_data eqb
  tree_call e = rw e

  -- Under the scope "4", the department and those below it, the text for a table with as many opening as
  -- closing parentheses opens one parenthesis that it does not close.
  pub department_tree_unbalanced :
      p.data_scope ≡ bytes "4"
      → IsBalanced table
      → (k : Bytes) × (permission_data table p ≡ where_call k (p.dept_id ∷ []) ∷ [])
        × (count b'(' k ≡ suc (count b')' k))
  department_tree_unbalanced e h = (
    table ++ department_tree,
    tree_call e,
    omega (
      arith,
      count-append b'(' table department_tree,
      count-append b')' table department_tree,
      h,
      tree_counts,
    ),
  )
