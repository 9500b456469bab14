-- ===== src/Gormx/Query/Returns.antt =====
-- When resolving a query returns: no join inside a join, two columns in each join tag.
use sub_sdk.Base.{◌≡◌, ◌⊎◌, refl, ◌≤◌, true, false, inl, inr, none, some, Run, done, length}
use sub_sdk.Go.Text.{Bytes}
use sub_sdk.Gormx.Tag.{make_tag}
use sub_sdk.Gormx.Condition.{Conditions, Target, nil_target, join_target, root_target, empty_public}
use sub_sdk.Gormx.Query.{
  Value, text, other, struct, hidden, Fields, end, field, resolve_field, resolve_value,
  resolve_search_query, search_kind,
}
use sub_sdk.Gormx.Query.Steps.{
  tag_joins, IsExported, SameShape, Returns, IsTarget, apply_plain-Returns, apply_join-Returns,
  tagged-Returns, then-Returns, target_end,
}

-- No tag of a field joins, and a field with a tag is exported; a field without a tag is a struct of such fields.
abbrev mutual
  pub IsPlainValue : Value → Type 0
  IsPlainValue (struct name fs) = IsPlain fs
  IsPlainValue _ = ⊥

  pub IsPlain : Fields → Type 0
  IsPlain end = Unit
  IsPlain (field none v fs) = IsPlainValue v × IsPlain fs
  IsPlain (field (some tag) v fs) = (tag_joins tag ≡ false) × IsExported v × IsPlain fs

-- A tag that joins names two columns, and its field is a struct without joins; a field with another tag is
-- exported.
abbrev mutual
  pub IsResolvableValue : Value → Type 0
  IsResolvableValue (struct name fs) = IsResolvable fs
  IsResolvableValue _ = ⊥

  pub IsResolvable : Fields → Type 0
  IsResolvable end = Unit
  IsResolvable (field none v fs) = IsResolvableValue v × IsResolvable fs
  IsResolvable (field (some tag) v fs) =
      (((tag_joins tag ≡ false) × IsExported v)
        ⊎ ((tag_joins tag ≡ true) × (2 ≤ length (make_tag tag).on) × IsPlainValue v))
      × IsResolvable fs

mutual
  unfolding resolve_value resolve_search_query resolve_field

  plain_value-Returns :
      (driver : Bytes) (v : Value) (c : Target Value)
      → IsPlainValue v
      → IsTarget c
      → Returns (resolve_value driver v c) c
  plain_value-Returns driver (hidden v) c p h = absurd p
  plain_value-Returns driver (text s) c p h = absurd p
  plain_value-Returns driver (other zero s id) c p h = absurd p
  plain_value-Returns driver (struct name fs) c p h = plain_fields_return driver fs c p h

  plain_fields_return :
      (driver : Bytes) (fs : Fields) (c : Target Value)
      → IsPlain fs
      → IsTarget c
      → Returns (resolve_search_query driver fs c) c
  plain_fields_return driver end c p h = (c, refl, h)
  plain_fields_return driver (field none v fs) c (pv, pf) h =
      then-Returns _ _ c (plain_value-Returns driver v c pv h)
        λ d s. plain_fields_return driver fs d pf (target_end c d s)
  plain_fields_return driver (field (some tag) v fs) c (n, x, pf) h =
      then-Returns _ _ c
        (tagged-Returns driver tag v (resolve_value driver v) c h (
          apply_plain-Returns driver (make_tag tag) v (resolve_value driver v)
            (search_kind (make_tag tag).type) c n x h))
        λ d s. plain_fields_return driver fs d pf (target_end c d s)

root_rest :
    (f : Target Value → Run (Target Value)) (c : Conditions Value)
    → ((d : Conditions Value) → Returns (f (root_target d)) (root_target d))
    → (d : Target Value) → SameShape (root_target c) d
    → Returns (f d) d
root_rest f c r nil_target h = absurd h
root_rest f c r (join_target p) h = absurd h
root_rest f c r (root_target d) h = r d

mutual
  unfolding resolve_value resolve_search_query resolve_field

  root_value-Returns :
      (driver : Bytes) (v : Value) (c : Conditions Value)
      → IsResolvableValue v
      → Returns (resolve_value driver v (root_target c)) (root_target c)
  root_value-Returns driver (hidden v) c p = absurd p
  root_value-Returns driver (text s) c p = absurd p
  root_value-Returns driver (other zero s id) c p = absurd p
  root_value-Returns driver (struct name fs) c p = root_fields_return driver fs c p

  root_fields_return :
      (driver : Bytes) (fs : Fields) (c : Conditions Value)
      → IsResolvable fs
      → Returns (resolve_search_query driver fs (root_target c)) (root_target c)
  root_fields_return driver end c p = (root_target c, refl, tt)
  root_fields_return driver (field none v fs) c (pv, pf) =
      then-Returns _ _ (root_target c) (root_value-Returns driver v c pv)
        (root_rest (resolve_search_query driver fs) c λ d. root_fields_return driver fs d pf)
  root_fields_return driver (field (some tag) v fs) c (inl (n, x), pf) =
      then-Returns _ _ (root_target c)
        (tagged-Returns driver tag v (resolve_value driver v) (root_target c) tt (
          apply_plain-Returns driver (make_tag tag) v (resolve_value driver v)
            (search_kind (make_tag tag).type) (root_target c) n x tt))
        (root_rest (resolve_search_query driver fs) c λ d. root_fields_return driver fs d pf)
  root_fields_return driver (field (some tag) v fs) c (inr (j, two, pv), pf) =
      then-Returns _ _ (root_target c)
        (tagged-Returns driver tag v (resolve_value driver v) (root_target c) tt (
          apply_join-Returns driver (make_tag tag) v (resolve_value driver v)
            (search_kind (make_tag tag).type) c j two
            (plain_value-Returns driver v (join_target empty_public) pv tt)))
        (root_rest (resolve_search_query driver fs) c λ d. root_fields_return driver fs d pf)

-- A query with no join inside a join, whose join tags name two columns each on fields that are structs,
-- whose fields without a tag are structs, and whose fields are exported, is resolved into conditions
-- without a panic.
pub resolve_search_query_returns :
    (driver : Bytes) (fs : Fields) (c : Conditions Value)
    → IsResolvable fs
    → (d : Conditions Value) × (resolve_search_query driver fs (root_target c)
        ≡ done (root_target d))
resolve_search_query_returns driver fs c p = root_of (root_fields_return driver fs c p)
  where
    root_of :
        Returns (resolve_search_query driver fs (root_target c)) (root_target c)
        → (d : Conditions Value) × (resolve_search_query driver fs (root_target c)
            ≡ done (root_target d))
    root_of (nil_target, e, s) = absurd s
    root_of (join_target p, e, s) = absurd s
    root_of (root_target d, e, s) = (d, e)

pub resolve_struct :
    (driver name : Bytes) (fs : Fields) (c : Target Value)
    → resolve_value driver (struct name fs) c ≡ resolve_search_query driver fs c
unfolding resolve_value
resolve_struct driver name fs c = refl
