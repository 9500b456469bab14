-- ===== src/Gormx/Query/Steps.antt =====
-- What one field of a query does to a target: it returns, with a target of the same shape.
use sub_sdk.Base.{
  ◌≡◌, refl, ◌≤◌, Bool, true, false, ◌||◌, inl, inr, some, List, Run, done, ◌>>=◌, eqb,
  if◌then◌else◌, length, Bool-cases,
}
use sub_sdk.Go.Text.{Bytes, bytes}
use sub_sdk.Go.Case.{to_lower}
use sub_sdk.Gormx.Tag.{SearchTag, make_tag}
use sub_sdk.Gormx.Condition.{
  Arg, Conditions, Target, nil_target, join_target, root_target, empty_public, set_where, set_order,
}
use sub_sdk.Gormx.Query.{
  Value, text, other, struct, hidden, set_value, Kind, left_join, inner_joins, exact, contains,
  greater, greater_eq, less, less_eq, starts_with, ends_with, in_list, is_null, order, unknown_kind,
  append_join, resolve_into, apply_kind, resolve_field, is_zero, search_kind, shown,
  format_join_sql, format_inner_joins,
}
use sub_sdk.Gormx.Query.Joins.{format_join_long}

abbrev pub joins : Kind → Bool
joins left_join = true
joins inner_joins = true
joins _ = false

abbrev pub tag_joins : Bytes → Bool
tag_joins tag = joins (search_kind (make_tag tag).type)

-- Two targets that are both joins or both conditions.
abbrev pub SameShape : Target Value → Target Value → Type 0
SameShape (join_target p) (join_target q) = Unit
SameShape (root_target c) (root_target d) = Unit
SameShape _ _ = ⊥

-- The code returns, with a target of the shape it was given.
abbrev pub Returns : Run (Target Value) → Target Value → Type 0
Returns m c = (d : Target Value) × (m ≡ done d) × SameShape c d

abbrev pub IsTarget : Target Value → Type 0
IsTarget c = SameShape c c

set_where-Returns :
    (k : Bytes) (v : List (Arg Value)) (c : Target Value) → IsTarget c → Returns (set_where k v c) c
unfolding set_where
set_where-Returns k v nil_target h = absurd h
set_where-Returns k v (join_target p) h = (_, refl, tt)
set_where-Returns k v (root_target c) h = (_, refl, tt)

-- The field may be asked for its Interface().
abbrev pub IsExported : Value → Type 0
IsExported (hidden v) = ⊥
IsExported _ = Unit

set_value-Returns :
    (k : Bytes) (v : Value) (c : Target Value)
    → IsExported v
    → IsTarget c
    → Returns (set_value k v c) c
unfolding set_value
set_value-Returns k (hidden v) c x h = absurd x
set_value-Returns k (text s) c x h = set_where-Returns k _ c h
set_value-Returns k (other zero s id) c x h = set_where-Returns k _ c h
set_value-Returns k (struct name fs) c x h = set_where-Returns k _ c h

order-Returns :
    (b : Bool) (k : Bytes) (c : Target Value)
    → IsTarget c
    → Returns (if b then set_order k c else done c) c
unfolding set_order
order-Returns b k nil_target h = absurd h
order-Returns true k (join_target p) h = (_, refl, tt)
order-Returns true k (root_target c) h = (_, refl, tt)
order-Returns false k (join_target p) h = (_, refl, tt)
order-Returns false k (root_target c) h = (_, refl, tt)

module _ (driver : Bytes) (t : SearchTag) (v : Value)
    (inner : Target Value → Run (Target Value)) where
  pub apply_plain-Returns :
      (k : Kind) (c : Target Value)
      → joins k ≡ false
      → IsExported v
      → IsTarget c
      → Returns (apply_kind driver t v inner k c) c
  unfolding apply_kind
  apply_plain-Returns left_join c n x h = cc
  apply_plain-Returns inner_joins c n x h = cc
  apply_plain-Returns order c n x h =
      order-Returns
        (eqb (to_lower (shown v)) (bytes "desc") || eqb (to_lower (shown v)) (bytes "asc")) _ c h
  apply_plain-Returns unknown_kind c n x h = (c, refl, h)
  apply_plain-Returns exact c n x h = set_value-Returns _ v c x h
  apply_plain-Returns contains c n x h = set_where-Returns _ _ c h
  apply_plain-Returns greater c n x h = set_value-Returns _ v c x h
  apply_plain-Returns greater_eq c n x h = set_value-Returns _ v c x h
  apply_plain-Returns less c n x h = set_value-Returns _ v c x h
  apply_plain-Returns less_eq c n x h = set_value-Returns _ v c x h
  apply_plain-Returns starts_with c n x h = set_where-Returns _ _ c h
  apply_plain-Returns ends_with c n x h = set_where-Returns _ _ c h
  apply_plain-Returns in_list c n x h = set_value-Returns _ v c x h
  apply_plain-Returns is_null c n x h = set_where-Returns _ _ c h

  into_root-Returns :
      (on : Bytes) (c : Conditions Value)
      → Returns (inner (join_target empty_public)) (join_target empty_public)
      → Returns (resolve_into inner t.type on (root_target c)) (root_target c)
  unfolding resolve_into append_join
  into_root-Returns on c (nil_target, e, s) = absurd s
  into_root-Returns on c (root_target d, e, s) = absurd s
  into_root-Returns on c (join_target p, e, s) = rw e (_, refl, tt)

  pub apply_join-Returns :
      (k : Kind) (c : Conditions Value)
      → joins k ≡ true
      → 2 ≤ length t.on
      → Returns (inner (join_target empty_public)) (join_target empty_public)
      → Returns (apply_kind driver t v inner k (root_target c)) (root_target c)
  unfolding apply_kind format_join_sql format_inner_joins
  apply_join-Returns left_join c n h r =
      let (s, e) = format_join_long (bytes "LEFT JOIN ") driver t.join t.on t.table h in
      rw e (into_root-Returns s c r)
  apply_join-Returns inner_joins c n h r =
      let (s, e) = format_join_long (bytes "INNER JOIN ") driver t.join t.on t.table h in
      rw e (into_root-Returns s c r)
  apply_join-Returns _ c n h r = cc

-- A field with a tag: what its kind does is asked only of a tag that is not skipped on a value that is not zero.
pub tagged-Returns :
    (driver tag : Bytes) (v : Value) (inner : Target Value → Run (Target Value)) (c : Target Value)
    → IsTarget c
    → Returns (apply_kind driver (make_tag tag) v inner (search_kind (make_tag tag).type) c) c
    → Returns (resolve_field driver (some tag) v inner c) c
unfolding resolve_field
tagged-Returns driver tag v inner c h r = elim (Bool-cases (eqb tag (bytes "-"))) [
  | inl e ↦ rw e (c, refl, h)
  | inr e ↦ elim (Bool-cases (is_zero v)) [ inl z ↦ rw (e, z) (c, refl, h) | inr z ↦ rw (e, z) r ]
]

SameShape-trans : (a b c : Target Value) → SameShape a b → SameShape b c → SameShape a c
SameShape-trans (join_target p) (join_target q) (join_target r) h k = tt
SameShape-trans (root_target p) (root_target q) (root_target r) h k = tt
SameShape-trans (join_target p) (join_target q) nil_target h k = absurd k
SameShape-trans (join_target p) (join_target q) (root_target r) h k = absurd k
SameShape-trans (root_target p) (root_target q) nil_target h k = absurd k
SameShape-trans (root_target p) (root_target q) (join_target r) h k = absurd k
SameShape-trans (join_target p) nil_target c h k = absurd h
SameShape-trans (join_target p) (root_target q) c h k = absurd h
SameShape-trans (root_target p) nil_target c h k = absurd h
SameShape-trans (root_target p) (join_target q) c h k = absurd h
SameShape-trans nil_target b c h k = absurd h

pub then-Returns :
    (m : Run (Target Value)) (f : Target Value → Run (Target Value)) (c : Target Value)
    → Returns m c
    → ((d : Target Value) → SameShape c d → Returns (f d) d)
    → Returns (m >>= f) c
then-Returns m f c (d, e, s) r =
    let (d', e', s') = r d s in (d', rw e e', SameShape-trans c d d' s s')

pub target_end : (c d : Target Value) → SameShape c d → IsTarget d
target_end (join_target p) (join_target q) h = tt
target_end (root_target p) (root_target q) h = tt
target_end (join_target p) nil_target h = absurd h
target_end (join_target p) (root_target q) h = absurd h
target_end (root_target p) nil_target h = absurd h
target_end (root_target p) (join_target q) h = absurd h
target_end nil_target d h = absurd h
