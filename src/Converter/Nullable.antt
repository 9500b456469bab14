-- ===== src/Converter/Nullable.antt =====
-- Which types have a form for NULL, and that the case of a name does not matter.
use mathlib.Core.Path.{subst}
use mathlib.Core.Option.{some-injective, none-ne-some}
use sub_sdk.Base.{
  ◌≡◌, ◌⊎◌, inl, inr, refl, ap, ◌∙◌, Bool, true, false, ◌&&◌, ◌||◌, some, List, [], ◌∷◌, eqb,
  eqb_eq, arith, Bool-cases, Option-cases,
}
use sub_sdk.Go.Text.{Bytes, bytes}
use sub_sdk.Go.Case.{to_lower}
use sub_sdk.Go.Index.{has_prefix}
use sub_sdk.Converter.{
  data_type_map, type_in, may_convert_null_type, converted, convert_string_data_type,
}

-- A type is byte, or its form for NULL is one of package sql.
has_null_form : Bytes → Bool
has_null_form t =
    eqb t (bytes "byte") || has_prefix (bytes "sql.Null") (may_convert_null_type t true)

every : List (Bytes × Bytes) → Bool
unfolding has_null_form
every [] = true
every (e ∷ m) = has_null_form e.1 && every m

every_checked : every data_type_map ≡ true
unfolding every data_type_map has_prefix may_convert_null_type eqb
every_checked = refl

every_in :
    (m : List (Bytes × Bytes)) (name t : Bytes)
    → every m ≡ true
    → type_in m name ≡ some t
    → has_null_form t ≡ true
unfolding every type_in
every_in [] name t h e = absurd (none-ne-some _ e)
every_in ((k, v) ∷ m) name t h e = elim (Bool-cases (eqb k name)) [
  | inl b ↦
      subst (λ u. has_null_form u ≡ true) (some-injective _ _ (rw b at e))
        (both (has_null_form v) (every m) h).0
  | inr b ↦ every_in m name t (both (has_null_form v) (every m) h).1 (rw b at e)
]
  where
    both : (a b : Bool) → (a && b) ≡ true → (a ≡ true) × (b ≡ true)
    both a b p = ground arith

Form : Bytes → Bytes → Type 0
Form t u = ((t ≡ bytes "byte") × (u ≡ t)) ⊎ (has_prefix (bytes "sql.Null") u ≡ true)

null-Form : (t : Bytes) → has_null_form t ≡ true → Form t (may_convert_null_type t true)
unfolding Form has_null_form
null-Form t h = elim (Bool-cases (eqb t (bytes "byte"))) [
  | inl b ↦ inl (eqb_eq t (bytes "byte") b, rw (eqb_eq t (bytes "byte") b) byte_stays)
  | inr b ↦ inr (rw b at h)
]
  where
    byte_stays : may_convert_null_type (bytes "byte") true ≡ bytes "byte"
    byte_stays = unfold may_convert_null_type eqb in refl

-- A name that is accepted for a column without NULL is accepted for one with NULL: its type is then one
-- of package sql, except for byte, which stays as it is.
pub convert_string_data_type_nullable :
    (name t : Bytes)
    → convert_string_data_type name false ≡ some t
    → (u : Bytes) × (convert_string_data_type name true ≡ some u)
      × (((t ≡ bytes "byte") × (u ≡ t)) ⊎ (has_prefix (bytes "sql.Null") u ≡ true))
unfolding convert_string_data_type converted may_convert_null_type Form
convert_string_data_type_nullable name t e =
    elim (Option-cases (type_in data_type_map (to_lower name))) [
      | inl n ↦ absurd (none-ne-some _ (rw n at e))
      | inr (v, s) ↦ (
        may_convert_null_type t true,
        rw (s, same v s),
        null-Form t
            (every_in data_type_map (to_lower name) t every_checked (s ∙ ap some (same v s))),
      )
    ]
  where
    same : (v : Bytes) → type_in data_type_map (to_lower name) ≡ some v → v ≡ t
    same v s =
        unfold convert_string_data_type converted may_convert_null_type in
        some-injective _ _ (rw s at e)
