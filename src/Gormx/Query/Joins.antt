-- ===== src/Gormx/Query/Joins.antt =====
-- The join conditions of a query: two columns are enough, and with fewer the query panics.
use sub_sdk.Base.{
  ◌≡◌, refl, ◌<◌, ◌≤◌, false, ◌⊎◌, inl, inr, some, List, [], ◌∷◌, Run, done, panic, out_of_range,
  eqb, length, arith,
}
use sub_sdk.Go.Text.{Bytes, bytes}
use sub_sdk.Gormx.Tag.{SearchTag, make_tag}
use sub_sdk.Gormx.Condition.{Target}
use sub_sdk.Gormx.Query.{
  Value, Fields, field, Kind, left_join, inner_joins, format_join, apply_kind, resolve_field,
  resolve_value, resolve_search_query, is_zero, search_kind,
}

abbrev pub IsJoinKind : Kind → Type 0
IsJoinKind k = (k ≡ left_join) ⊎ (k ≡ inner_joins)

-- A tag that is not skipped, on a value that is not zero.
abbrev pub IsActive : Bytes → Value → Type 0
IsActive tag v = (eqb tag (bytes "-") ≡ false) × (is_zero v ≡ false)

resolve_active :
    (driver tag : Bytes) (v : Value) (inner : Target Value → Run (Target Value)) (c : Target Value)
    → IsActive tag v
    → resolve_field driver (some tag) v inner c
      ≡ apply_kind driver (make_tag tag) v inner (search_kind (make_tag tag).type) c
unfolding resolve_field
resolve_active driver tag v inner c (e, z) = rw (e, z)

format_join_short :
    (kind driver table : Bytes) (on : List Bytes) (t : Bytes)
    → length on < 2
    → format_join kind driver table on t ≡ panic out_of_range
unfolding format_join
format_join_short kind driver table [] t h = refl
format_join_short kind driver table (a ∷ []) t h = refl
format_join_short kind driver table (a ∷ b ∷ on) t h = absurd (omega arith)

apply_join_short :
    (driver : Bytes) (t : SearchTag) (v : Value) (inner : Target Value → Run (Target Value))
    (k : Kind) (c : Target Value)
    → IsJoinKind k
    → length t.on < 2
    → apply_kind driver t v inner k c ≡ panic out_of_range
unfolding apply_kind
apply_join_short driver t v inner k c (inl e) h =
    rw (e, apply_kind, format_join_short (bytes "LEFT JOIN ") driver t.join t.on t.table h)
apply_join_short driver t v inner k c (inr e) h =
    rw (e, apply_kind, format_join_short (bytes "INNER JOIN ") driver t.join t.on t.table h)

-- A join field that is not zero, whose tag names fewer than two columns under `on`, panics with an
-- index out of range, whatever is resolved into.
pub join_without_columns_panics :
    (driver tag : Bytes) (v : Value) (fs : Fields) (c : Target Value)
    → IsActive tag v
    → IsJoinKind (search_kind (make_tag tag).type)
    → length (make_tag tag).on < 2
    → resolve_search_query driver (field (some tag) v fs) c ≡ panic out_of_range
unfolding resolve_search_query
join_without_columns_panics driver tag v fs c a k h = rw (
  resolve_active driver tag v (resolve_value driver v) c a,
  apply_join_short driver (make_tag tag) v (resolve_value driver v) _ c k h,
)

pub format_join_long :
    (kind driver table : Bytes) (on : List Bytes) (t : Bytes)
    → 2 ≤ length on
    → (s : Bytes) × (format_join kind driver table on t ≡ done s)
unfolding format_join
format_join_long kind driver table [] t h = absurd (omega arith)
format_join_long kind driver table (a ∷ []) t h = absurd (omega arith)
format_join_long kind driver table (a ∷ b ∷ on) t h = (_, refl)
