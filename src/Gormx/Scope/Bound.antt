-- ===== src/Gormx/Scope/Bound.antt =====
-- The WHERE and OR calls of a resolved query have their arguments.
use sub_sdk.Base.{◌≡◌, ap, ◌∙◌, List, [], ◌∷◌, done, ◌>>=◌, length, All, All-append, map}
use sub_sdk.Go.Text.{Bytes}
use sub_sdk.Gormx.Condition.{Arg, Clauses, Public, Join, Conditions, root_target}
use sub_sdk.Gormx.Query.{Value, struct, Fields, resolve_value, resolve_search_query}
use sub_sdk.Gormx.Query.Placeholders.{
  placeholders, IsBound, IsBoundPublic, IsClean, resolve_search_query-IsBound,
}
use sub_sdk.Gormx.Query.Returns.{IsResolvable, resolve_struct, resolve_search_query_returns}
use sub_sdk.Gormx.Scope.{
  Call, where_call, or_call, order_call, public_calls, join_calls, target_calls, new_condition,
  make_condition,
}

abbrev pub IsBoundCall : Call (Arg Value) → Type 0
IsBoundCall (where_call k v) = placeholders k ≡ length v
IsBoundCall (or_call k v) = placeholders k ≡ length v
IsBoundCall _ = Unit

where_calls-All :
    (cs : Clauses Value) → IsBound cs → All IsBoundCall (map (λ c. where_call c.0 c.1) cs)
where_calls-All [] h = tt
where_calls-All (c ∷ cs) (h, hs) = (h, where_calls-All cs hs)

or_calls-All : (cs : Clauses Value) → IsBound cs → All IsBoundCall (map (λ c. or_call c.0 c.1) cs)
or_calls-All [] h = tt
or_calls-All (c ∷ cs) (h, hs) = (h, or_calls-All cs hs)

order_calls-All : (os : List Bytes) → All IsBoundCall (map (λ o. order_call o) os)
order_calls-All [] = tt
order_calls-All (o ∷ os) = (tt, order_calls-All os)

public_calls-All : (p : Public Value) → IsBoundPublic p → All IsBoundCall (public_calls p)
unfolding public_calls
public_calls-All p (w, o) =
    All-append _ (map (λ c. where_call c.0 c.1) p.where_clauses) _
      (where_calls-All p.where_clauses w)
      (All-append _ (map (λ c. or_call c.0 c.1) p.or_clauses) _ (or_calls-All p.or_clauses o)
        (order_calls-All p.order))

join_calls-All :
    (js : List (Join Value))
    → All (λ j. IsBoundPublic j.public) js
    → All IsBoundCall (join_calls js)
unfolding join_calls
join_calls-All [] h = tt
join_calls-All (j ∷ js) (h, hs) = (
  tt,
  All-append _ (public_calls j.public) (join_calls js) (public_calls-All j.public h)
      (join_calls-All js hs),
)

-- For a query without nested joins, whose join tags name two columns each on fields that are structs, whose
-- fields without a tag are structs, whose fields are exported, and whose tags hold no question mark in their
-- table and column, MakeCondition does not panic, and each of its calls of Where and Or
-- has as many arguments as its text has placeholders.
pub make_condition-IsBoundCall :
    (driver name : Bytes) (fs : Fields)
    → IsResolvable fs
    → IsClean fs
    → (calls : List (Call (Arg Value))) × (make_condition (struct name fs) driver ≡ done calls)
      × All IsBoundCall calls
unfolding make_condition
make_condition-IsBoundCall driver name fs r clean =
    let (d, e) = resolve_search_query_returns driver fs _ r in
    let (p, js) =
      resolve_search_query-IsBound driver fs new_condition (root_target d) clean ((tt, tt), tt) e in
    (
      target_calls (root_target d),
      ap (λ m. m >>= λ c. done (target_calls c)) (struct_eq driver name fs ∙ e),
      bound_calls d p js,
    )
  where
    struct_eq :
        (driver name : Bytes) (fs : Fields)
        → resolve_value driver (struct name fs) new_condition
          ≡ resolve_search_query driver fs new_condition
    struct_eq driver name fs = resolve_struct driver name fs new_condition

    bound_calls :
        (d : Conditions Value)
        → IsBoundPublic d.public
        → All (λ j. IsBoundPublic j.public) d.joins
        → All IsBoundCall (target_calls (root_target d))
    bound_calls d p js =
        unfold target_calls in
        All-append _ (join_calls d.joins) (public_calls d.public) (join_calls-All d.joins js)
          (public_calls-All d.public p)
