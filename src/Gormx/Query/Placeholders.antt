-- ===== src/Gormx/Query/Placeholders.antt =====
-- Each SQL text of a resolved query has as many placeholders as arguments.
use sub_sdk.Base.{
  ℕ, suc, ◌+◌, ◌≡◌, refl, ◌∙◌, Bool, true, false, ◌||◌, Option, none, some, List, [], ◌∷◌, ◌++◌,
  Run, done, panic, ◌>>=◌, Holds, Holds-bind, Holds_of_done, eqb, if◌then◌else◌, ◌==◌, length, All,
  All-append, arith, Bool-cases, inl, inr,
}
use sub_sdk.Go.Text.{Bytes, bytes}
use sub_sdk.Go.Split.{Lacks}
use sub_sdk.Go.Case.{to_lower}
use sub_sdk.Gormx.Tag.{SearchTag, make_tag}
use sub_sdk.Gormx.Condition.{
  value, Arg, Clauses, Public, Conditions, Target, nil_target, join_target, root_target,
  empty_public, set_clause, set_where, set_order,
}
use sub_sdk.Gormx.Query.{
  Value, text, other, struct, hidden, interface, set_value, Fields, end, field, Kind, left_join,
  inner_joins, exact, contains, greater, greater_eq, less, less_eq, starts_with, ends_with, in_list,
  is_null, order, unknown_kind, quote, format_column, like, append_join, resolve_into, apply_kind,
  resolve_field, resolve_value, resolve_search_query, is_zero, is_postgres, format_join_sql,
  format_inner_joins, search_kind, shown,
}

-- The number of placeholders of an SQL text.
pub placeholders : Bytes → ℕ
placeholders [] = 0
placeholders (c ∷ s) = if c == b'?' then suc (placeholders s) else placeholders s

placeholders-append : (s t : Bytes) → placeholders (s ++ t) ≡ placeholders s + placeholders t
unfolding placeholders
placeholders-append [] t = omega arith
placeholders-append (c ∷ s) t = ground (arith, placeholders-append s t)

placeholders-Lacks : (s : Bytes) → Lacks b'?' s → placeholders s ≡ 0
unfolding placeholders
placeholders-Lacks [] h = refl
placeholders-Lacks (c ∷ s) (h, hs) = ground (arith, placeholders-Lacks s hs)

quote-Lacks : (driver name : Bytes) → Lacks b'?' name → Lacks b'?' (quote driver name)
unfolding quote
quote-Lacks driver name h = elim (Bool-cases (is_postgres driver)) [
  | inl e ↦ rw e (omega arith, All-append _ name (b'"' ∷ []) h (omega arith))
  | inr e ↦ rw e (omega arith, All-append _ name (b'`' ∷ []) h (omega arith))
]

column-Lacks :
    (driver table column : Bytes)
    → Lacks b'?' table
    → Lacks b'?' column
    → Lacks b'?' (format_column driver table column)
unfolding format_column
column-Lacks driver table column h k =
    All-append _ (quote driver table) (b'.' ∷ quote driver column) (quote-Lacks driver table h)
      (omega arith, quote-Lacks driver column k)

-- A tag whose table and column hold no question mark.
abbrev pub IsCleanTag : SearchTag → Type 0
IsCleanTag t = Lacks b'?' t.table × Lacks b'?' t.column

abbrev pub IsBound : Clauses Value → Type 0
IsBound = All (λ c. placeholders c.0 ≡ length c.1)

abbrev pub IsBoundPublic : Public Value → Type 0
IsBoundPublic p = IsBound p.where_clauses × IsBound p.or_clauses

abbrev pub IsBoundTarget : Target Value → Type 0
IsBoundTarget nil_target = Unit
IsBoundTarget (join_target p) = IsBoundPublic p
IsBoundTarget (root_target c) = IsBoundPublic c.public × All (λ j. IsBoundPublic j.public) c.joins

abbrev Keeps : (Target Value → Run (Target Value)) → Type 0
Keeps f = (c : Target Value) → IsBoundTarget c → Holds (f c) IsBoundTarget

set_clause-IsBound :
    (k : Bytes) (v : List (Arg Value)) (m : Clauses Value)
    → placeholders k ≡ length v
    → IsBound m
    → IsBound (set_clause k v m)
unfolding set_clause
set_clause-IsBound k v [] e h = (e, tt)
set_clause-IsBound k v ((j, w) ∷ m) e (h, hs) = elim (Bool-cases (eqb j k)) [
  | inl b ↦ rw b (e, hs)
  | inr b ↦ rw b (h, set_clause-IsBound k v m e hs)
]

set_where-Keeps :
    (k : Bytes) (v : List (Arg Value)) → placeholders k ≡ length v → Keeps (set_where k v)
unfolding set_where
set_where-Keeps k v e nil_target h = tt
set_where-Keeps k v e (join_target p) (w, o) = (set_clause-IsBound k v p.where_clauses e w, o)
set_where-Keeps k v e (root_target c) ((w, o), j) =
    ((set_clause-IsBound k v c.public.where_clauses e w, o), j)

set_order-Keeps : (k : Bytes) → Keeps (set_order k)
unfolding set_order
set_order-Keeps k nil_target h = tt
set_order-Keeps k (join_target p) h = h
set_order-Keeps k (root_target c) h = h

append_join-Keeps :
    (t on : Bytes) (c : Conditions Value)
    → IsBoundTarget (root_target c)
    → (d : Target Value) → IsBoundTarget d
    → Holds (append_join t on c d) IsBoundTarget
unfolding append_join
append_join-Keeps t on c (p, j) nil_target h = tt
append_join-Keeps t on c (p, j) (join_target q) h = (p, All-append _ c.joins _ j (h, tt))
append_join-Keeps t on c (p, j) (root_target d) h = h

resolve_into-Keeps :
    (inner : Target Value → Run (Target Value)) (t on : Bytes)
    → Keeps inner
    → Keeps (resolve_into inner t on)
unfolding resolve_into
resolve_into-Keeps inner t on k nil_target h = tt
resolve_into-Keeps inner t on k (join_target p) h =
    Holds-bind IsBoundTarget IsBoundTarget (inner nil_target) _ (k nil_target tt) (λ d _. h)
resolve_into-Keeps inner t on k (root_target c) h =
    Holds-bind IsBoundTarget IsBoundTarget (inner (join_target empty_public)) _
      (k (join_target empty_public) (tt, tt)) (append_join-Keeps t on c h)

module _ (driver : Bytes) (t : SearchTag) (v : Value) (clean : IsCleanTag t) where
  -- A condition on the column with one placeholder, or none, behind it.
  column-Keeps :
      (tail : Bytes) (args : List (Arg Value))
      → placeholders tail ≡ length args
      → Keeps (set_where (format_column driver t.table t.column ++ tail) args)
  column-Keeps tail args e = set_where-Keeps _ args (
      placeholders-append (format_column driver t.table t.column) tail
      ∙ omega
          (arith, e, placeholders-Lacks _ (column-Lacks driver t.table t.column clean.0 clean.1)))

  -- The same with the value of the field for the placeholder.
  value-Keeps :
      (tail : Bytes)
      → placeholders tail ≡ 1
      → Keeps (set_value (format_column driver t.table t.column ++ tail) v)
  unfolding set_value
  value-Keeps tail e = each (interface v)
    where
      each :
          (m : Run Value)
          → Keeps (λ c.
            m >>= λ x. set_where (format_column driver t.table t.column ++ tail) (value x ∷ []) c)
      each (done x) c h = column-Keeps tail (value x ∷ []) e c h
      each (panic q) c h = tt

  like-placeholders : placeholders (like driver) ≡ 1
  unfolding like placeholders
  like-placeholders = elim (Bool-cases (is_postgres driver)) [ inl e ↦ rw e | inr e ↦ rw e ]

  join-Keeps :
      (inner : Target Value → Run (Target Value)) (m : Run Bytes)
      → Keeps inner
      → Keeps (λ c. m >>= λ join_sql. resolve_into inner t.type join_sql c)
  join-Keeps inner (done s) k c h = resolve_into-Keeps inner t.type s k c h
  join-Keeps inner (panic p) k c h = tt

  apply_kind-Keeps :
      (inner : Target Value → Run (Target Value)) (kind : Kind)
      → Keeps inner
      → Keeps (apply_kind driver t v inner kind)
  unfolding apply_kind placeholders
  apply_kind-Keeps inner left_join k =
      join-Keeps inner (format_join_sql driver t.join t.on t.table) k
  apply_kind-Keeps inner inner_joins k =
      join-Keeps inner (format_inner_joins driver t.join t.on t.table) k
  apply_kind-Keeps inner exact k = value-Keeps (bytes " = ?") refl
  apply_kind-Keeps inner contains k = column-Keeps (like driver) _ like-placeholders
  apply_kind-Keeps inner greater k = value-Keeps (bytes " > ?") refl
  apply_kind-Keeps inner greater_eq k = value-Keeps (bytes " >= ?") refl
  apply_kind-Keeps inner less k = value-Keeps (bytes " < ?") refl
  apply_kind-Keeps inner less_eq k = value-Keeps (bytes " <= ?") refl
  apply_kind-Keeps inner starts_with k = column-Keeps (like driver) _ like-placeholders
  apply_kind-Keeps inner ends_with k = column-Keeps (like driver) _ like-placeholders
  apply_kind-Keeps inner in_list k = value-Keeps (bytes " in (?)") refl
  apply_kind-Keeps inner is_null k = column-Keeps (bytes " is null") [] refl
  apply_kind-Keeps inner order k = λ c h.
      if-Keeps (eqb (to_lower (shown v)) (bytes "desc") || eqb (to_lower (shown v)) (bytes "asc")) _
        c h
    where
      if-Keeps :
          (b : Bool) (s : Bytes) (c : Target Value)
          → IsBoundTarget c
          → Holds (if b then set_order s c else done c) IsBoundTarget
      if-Keeps true s c h = set_order-Keeps s c h
      if-Keeps false s c h = h
  apply_kind-Keeps inner unknown_kind k = λ c h. h

abbrev IsCleanOption : Option Bytes → Type 0
IsCleanOption none = Unit
IsCleanOption (some tag) = IsCleanTag (make_tag tag)

resolve_field-Keeps :
    (driver : Bytes) (tag : Option Bytes) (v : Value) (inner : Target Value → Run (Target Value))
    → IsCleanOption tag
    → Keeps inner
    → Keeps (resolve_field driver tag v inner)
unfolding resolve_field
resolve_field-Keeps driver none v inner clean k c h = k c h
resolve_field-Keeps driver (some tag) v inner clean k c h =
    elim (Bool-cases (eqb tag (bytes "-"))) [
      | inl e ↦ rw e h
      | inr e ↦ elim (Bool-cases (is_zero v)) [
        | inl z ↦ rw (e, z) h
        | inr z ↦
            rw (e, z)
              (apply_kind-Keeps driver (make_tag tag) v clean inner
                (search_kind (make_tag tag).type) k c h)
      ]
    ]

-- Every search tag of a query struct, at any depth, is clean.
abbrev mutual
  pub IsCleanValue : Value → Type 0
  IsCleanValue (text s) = Unit
  IsCleanValue (other zero s id) = Unit
  IsCleanValue (struct name fs) = IsClean fs
  IsCleanValue (hidden v) = Unit

  pub IsClean : Fields → Type 0
  IsClean end = Unit
  IsClean (field tag v fs) = IsCleanOption tag × IsCleanValue v × IsClean fs

mutual
  unfolding resolve_value resolve_search_query

  resolve_value-Keeps :
      (driver : Bytes) (v : Value) → IsCleanValue v → Keeps (resolve_value driver v)
  resolve_value-Keeps driver (text s) clean c h = tt
  resolve_value-Keeps driver (other zero s id) clean c h = tt
  resolve_value-Keeps driver (hidden v) clean c h = tt
  resolve_value-Keeps driver (struct name fs) clean c h = resolve_query-Keeps driver fs clean c h

  resolve_query-Keeps :
      (driver : Bytes) (fs : Fields) → IsClean fs → Keeps (resolve_search_query driver fs)
  resolve_query-Keeps driver end clean c h = h
  resolve_query-Keeps driver (field tag v fs) (ct, cv, cf) c h =
      Holds-bind IsBoundTarget IsBoundTarget (resolve_field driver tag v (resolve_value driver v) c)
        _
        (resolve_field-Keeps driver tag v (resolve_value driver v) ct
          (resolve_value-Keeps driver v cv) c h)
        (resolve_query-Keeps driver fs cf)

-- A query whose tags hold no question mark in their table and column, resolved without a panic into
-- conditions whose texts have as many placeholders as arguments, gives such conditions again, in
-- the joins too.
pub resolve_search_query-IsBound :
    (driver : Bytes) (fs : Fields) (c c' : Target Value)
    → IsClean fs
    → IsBoundTarget c
    → resolve_search_query driver fs c ≡ done c'
    → IsBoundTarget c'
resolve_search_query-IsBound driver fs c c' clean h e =
    Holds_of_done IsBoundTarget (resolve_search_query driver fs c) c' e
      (resolve_query-Keeps driver fs clean c h)
