-- ===== src/Gormx/Scope.antt =====
-- The scopes of gormx/search.go: which methods of the gorm.DB they call, in order.
pub mod Pages
pub mod Bound
use sub_sdk.Base.{
  ℤ, pos, ltz, sub64, mul64, Bool, true, false, Option, none, some, List, [], ◌∷◌, ◌++◌, Run, done,
  ◌>>=◌, eqb, if◌then◌else◌, map,
}
use sub_sdk.Go.Text.{Bytes, bytes}
use sub_sdk.Gormx.Tag.{SearchTag, make_tag}
use sub_sdk.Gormx.Condition.{
  Arg, Public, Join, Conditions, Target, nil_target, join_target, root_target, empty_public,
}
use sub_sdk.Gormx.Query.{Value, resolve_value}

-- The calls, with what they are given.
module _ {ℓ} (V : Type ℓ) where
  pub data Call : Type ℓ where
    joins_call : Bytes → Call
    where_call : Bytes → List V → Call
    or_call : Bytes → List V → Call
    order_call : Bytes → Call
    offset_call : ℤ → Call
    limit_call : ℤ → Call

-- The WHERE, OR and ORDER of one group of conditions, in this order.
public_calls : Public Value → List (Call (Arg Value))
public_calls p =
    map (λ c. where_call c.0 c.1) p.where_clauses
    ++ (map (λ c. or_call c.0 c.1) p.or_clauses ++ map (λ o. order_call o) p.order)

join_calls : List (Join Value) → List (Call (Arg Value))
unfolding public_calls
join_calls [] = []
join_calls (j ∷ js) = joins_call j.join_on ∷ (public_calls j.public ++ join_calls js)

target_calls : Target Value → List (Call (Arg Value))
unfolding join_calls public_calls
target_calls nil_target = []
target_calls (join_target p) = []
target_calls (root_target c) = join_calls c.joins ++ public_calls c.public

-- The condition that MakeCondition resolves into.
abbrev pub new_condition : Target Value
new_condition = root_target (record { public = empty_public; joins = [] })

pub make_condition : Value → Bytes → Run (List (Call (Arg Value)))
unfolding target_calls
make_condition q driver = do c ← resolve_value driver q new_condition; done (target_calls c)

pub paginate {ℓ} : {V : Type ℓ} → ℤ → ℤ → List (Call V)
paginate page_size page_index =
    let offset = mul64 (sub64 page_index (pos 1)) page_size in
    offset_call (if ltz offset (pos 0) then pos 0 else offset) ∷ limit_call page_size ∷ []

unfoldable pub sort_by {ℓ} : {V : Type ℓ} → Bytes → Bool → List (Call V)
sort_by column descending = order_call (if descending then column ++ bytes " DESC" else column) ∷ []

-- A field of the struct of GetSortBy: its search tag if it has one, and its json tag.
pub record SortField : Type 0 where
  pub search : Option Bytes
  pub json : Bytes

-- What the field makes of the result: `break` ends the loop.
sort_column : Bytes → SortField → Option Bytes
sort_column field_name f = elim f.search [
  | none ↦ none
  | some tag ↦
      if eqb tag (bytes "-")
      then none
      else if eqb f.json field_name
      then some (make_tag tag).column
      else none
]

or_else : Option Bytes → Bytes → Bytes
or_else none rest = rest
or_else (some c) rest = c

unfoldable pub get_sort_by : List SortField → Bytes → Bytes
unfolding sort_column or_else
get_sort_by [] field_name = []
get_sort_by (f ∷ fs) field_name = or_else (sort_column field_name f) (get_sort_by fs field_name)
