-- ===== src/Toolx/Import/Rows/Ids.antt =====
-- toolx/excelImport.go GenDataInt: the ids and the values of the records.
use mathlib.Core.Bool.{false≢true}
use sub_sdk.Base.{
  ℕ, ℤ, pos, add64, ◌≡◌, ◌∙◌, refl, sym, true, false, Option, none, some, List, [], ◌∷◌, Run, done,
  panic, ◌>>=◌, eqb, eqb_eq, eqb_refl, if◌then◌else◌, All, Bool-cases, inl, inr, ap,
}
use sub_sdk.Go.Text.{Bytes}
use sub_sdk.Toolx.TagBody.{get_tag, get_field_by_tag}
use sub_sdk.Toolx.Import.Rows.{
  Entries, set_entry, entry_of, ModelField, fields_of, kind_of, id_name, Value, int_id, convert,
  put_value, put_field, put_fields, gen_int_from, start_id, gen_data_int,
}

-- The field that a key belongs to is found without a panic, or none is, and it is not Id.
abbrev pub IsNotId : Option Bytes → Type 0
IsNotId none = Unit
IsNotId (some name) = eqb id_name name ≡ false

abbrev pub KeyIsNotId : List ModelField → Bytes × Bytes → Type 0
KeyIsNotId model (k, v) =
    (o : Option Bytes) × (get_field_by_tag (get_tag (fields_of model)) k ≡ done o) × IsNotId o

eqb_other : (a b c : Bytes) → eqb a b ≡ true → eqb c a ≡ false → eqb c b ≡ false
eqb_other a b c h n = rw (← eqb_eq a b h) n

eqb_swap : (a b : Bytes) → eqb a b ≡ false → eqb b a ≡ false
eqb_swap a b n = elim (Bool-cases (eqb b a)) [
  | inl e ↦ absurd (false≢true (sym n ∙ (rw (eqb_eq b a e) (eqb_refl a))))
  | inr e ↦ e
]

done-injective {ℓ} : {A : Type ℓ} (a b : A) → ◌≡◌ {A = Run A} (done a) (done b) → a ≡ b
done-injective a b h = cc

prefer {ℓ} : {A : Type ℓ} → Option A → Option A → Option A
prefer (some a) o = some a
prefer none o = o

prefer-none {ℓ} : {A : Type ℓ} (o : Option A) → prefer o none ≡ o
unfolding prefer
prefer-none (some a) = refl
prefer-none none = refl

prefer_assoc {ℓ} : {A : Type ℓ} (a b c : Option A) → prefer a (prefer b c) ≡ prefer (prefer a b) c
unfolding prefer
prefer_assoc (some a) b c = refl
prefer_assoc none b c = refl

entry_of-set_entry_same :
    {V : Type 0} (k : Bytes) (v : V) (m : Entries V) → entry_of k (set_entry k v m) ≡ some v
unfolding entry_of set_entry
entry_of-set_entry_same k v [] = rw (eqb_refl k) refl
entry_of-set_entry_same k v ((i, w) ∷ m) = elim (Bool-cases (eqb k i)) [
  | inl h ↦ rw (h, eqb_refl k) refl
  | inr h ↦ rw (h, h, entry_of-set_entry_same k v m) refl
]

entry_of-set_entry :
    {V : Type 0} (j k : Bytes) (v : V) (m : Entries V)
    → eqb j k ≡ false
    → entry_of j (set_entry k v m) ≡ entry_of j m
unfolding entry_of set_entry
entry_of-set_entry j k v [] n = rw n refl
entry_of-set_entry j k v ((i, w) ∷ m) n = elim (Bool-cases (eqb k i)) [
  | inl h ↦ rw (h, n, eqb_other k i j h n) refl
  | inr h ↦ rw h (ap (λ r. if eqb j i then some w else r) (entry_of-set_entry j k v m n))
]

module _ {F T : Type 0} (parse_float : Bytes → Option F) (parse_uint : Bytes → Option ℕ)
    (parse_time : Bytes → Option T) where
  put_value-id :
      (name : Bytes) (x : Option (Value F T)) (m : Entries (Value F T))
      → eqb id_name name ≡ false
      → entry_of id_name (put_value parse_float parse_uint parse_time name x m) ≡ entry_of id_name m
  put_value-id name none m n = refl
  put_value-id name (some x) m n = entry_of-set_entry id_name name x m n

  put_field-id :
      (model : List ModelField) (o : Option Bytes) (v : Bytes) (m : Entries (Value F T))
      → IsNotId o
      → entry_of id_name (put_field parse_float parse_uint parse_time model o v m)
        ≡ entry_of id_name m
  unfolding put_field
  put_field-id model none v m n = refl
  put_field-id model (some name) v m n =
      put_value-id name (convert parse_float parse_uint parse_time (kind_of model name) v) m n

  put_fields-id :
      (model : List ModelField) (info : Entries Bytes) (m : Entries (Value F T))
      → All (KeyIsNotId model) info
      → (r : Entries (Value F T)) × (put_fields parse_float parse_uint parse_time model info m
          ≡ done r)
        × (entry_of id_name r ≡ entry_of id_name m)
  unfolding put_fields
  put_fields-id model [] m _ = (m, refl, refl)
  put_fields-id model ((k, v) ∷ info) m ((o, found, n), ns) =
      let next = put_field parse_float parse_uint parse_time model o v m in
      let (r, e, same) = put_fields-id model info next ns in
      (r, rw (found, ◌>>=◌) e, same ∙ put_field-id model o v m n)

  -- The value that a column gives to the field `name`: none if the column belongs to another field or its
  -- text does not convert to the kind of the field.
  cell_value : List ModelField → Run (Option Bytes) → Bytes → Bytes → Option (Value F T)
  cell_value model (done (some f)) v name =
      if eqb name f then convert parse_float parse_uint parse_time (kind_of model f) v else none
  cell_value model (done none) v name = none
  cell_value model (panic p) v name = none

  -- The value of the field `name` for a row. The columns of a row belong to different fields, as the
  -- fields of a struct have different names; of two columns of one field the later one would count.
  pub value_of : List ModelField → Entries Bytes → Bytes → Option (Value F T)
  unfolding cell_value
  value_of model [] name = none
  value_of model ((k, v) ∷ info) name =
      prefer (value_of model info name)
        (cell_value model (get_field_by_tag (get_tag (fields_of model)) k) v name)

  -- A record for each row, in their order: the id is the one after the last, every other field has the value
  -- of its column, and nothing else is there.
  abbrev pub AreRecords :
      List ModelField → ℤ → List (Entries Bytes) → List (Entries (Value F T)) → Type 0
  AreRecords model id [] [] = Unit
  AreRecords model id [] (r ∷ rs) = ⊥
  AreRecords model id (info ∷ infos) [] = ⊥
  AreRecords model id (info ∷ infos) (r ∷ rs) =
      (entry_of id_name r ≡ some (int_id (add64 id (pos 1))))
      × ((name : Bytes) → eqb id_name name ≡ false → entry_of name r ≡ value_of model info name)
      × AreRecords model (add64 id (pos 1)) infos rs

  put_value-entry :
      (name f : Bytes) (x : Option (Value F T)) (m : Entries (Value F T))
      → entry_of name (put_value parse_float parse_uint parse_time f x m)
        ≡ prefer (if eqb name f then x else none) (entry_of name m)
  unfolding prefer
  put_value-entry name f none m = elim (Bool-cases (eqb name f)) [
    | inl e ↦ rw e refl
    | inr e ↦ rw e refl
  ]
  put_value-entry name f (some x) m = elim (Bool-cases (eqb name f)) [
    | inl e ↦ rw (e, eqb_eq name f e, entry_of-set_entry_same f x m) refl
    | inr e ↦ rw (e, entry_of-set_entry name f x m e) refl
  ]

  put_field-entry :
      (model : List ModelField) (name : Bytes) (o : Option Bytes) (v : Bytes)
      (m : Entries (Value F T))
      → entry_of name (put_field parse_float parse_uint parse_time model o v m)
        ≡ prefer (cell_value model (done o) v name) (entry_of name m)
  unfolding put_field cell_value prefer
  put_field-entry model name none v m = refl
  put_field-entry model name (some f) v m =
      put_value-entry name f (convert parse_float parse_uint parse_time (kind_of model f) v) m

  put_fields-value :
      (model : List ModelField) (name : Bytes) (info : Entries Bytes) (m r : Entries (Value F T))
      → All (KeyIsNotId model) info
      → put_fields parse_float parse_uint parse_time model info m ≡ done r
      → entry_of name r ≡ prefer (value_of model info name) (entry_of name m)
  unfolding put_fields value_of prefer
  put_fields-value model name [] m r _ h = ap (entry_of name) (sym (done-injective m r h))
  put_fields-value model name ((k, v) ∷ info) m r ((o, found, n), ns) h =
      let m' = put_field parse_float parse_uint parse_time model o v m in
      let rest = value_of model info name in
      put_fields-value model name info m' r ns (rw found at h)
      ∙ (ap (prefer rest) (put_field-entry model name o v m)
          ∙ (prefer_assoc rest (cell_value model (done o) v name) (entry_of name m)
              ∙ rw found refl))

  gen_int_from-AreRecords :
      (model : List ModelField) (id : ℤ) (infos : List (Entries Bytes))
      → All (All (KeyIsNotId model)) infos
      → (rows : List (Entries (Value F T))) × (gen_int_from parse_float parse_uint parse_time model
            id infos
          ≡ done rows)
        × AreRecords model id infos rows
  unfolding gen_int_from entry_of prefer
  gen_int_from-AreRecords model id [] _ = ([], refl, tt)
  gen_int_from-AreRecords model id (info ∷ infos) (k, ks) =
      let start = (id_name, int_id (add64 id (pos 1))) ∷ [] in
      let (r, e, same) = put_fields-id model info start k in
      let (rows, es, numbered) = gen_int_from-AreRecords model (add64 id (pos 1)) infos ks in
      (
        r ∷ rows,
        rw (e, ◌>>=◌, es) refl,
        (
          same ∙ rw (eqb_refl id_name) refl,
          (λ name n. put_fields-value model name info start r k e ∙ alone name n),
          numbered,
        ),
      )
    where
      alone :
          (name : Bytes)
          → eqb id_name name ≡ false
          → prefer
              (value_of model info name)
              (entry_of name ((id_name, int_id (add64 id (pos 1))) ∷ []))
            ≡ value_of model info name
      alone name n = rw (eqb_swap id_name name n, prefer-none (value_of model info name)) refl

  -- If no key of the rows belongs to the field Id and the lookup of each of them does not panic, then
  -- GenDataInt does not panic and makes one record for each row, in their order, whose entry Id is the
  -- largest id of the table, or 0 if that could not be read, and the number of the row from 1 on, as an
  -- int64, and whose other entries are the texts of the row, converted to the kinds of their fields.
  pub gen_data_int-AreRecords :
      (model : List ModelField) (max_id : Option ℤ) (infos : List (Entries Bytes))
      → All (All (KeyIsNotId model)) infos
      → (rows : List (Entries (Value F T))) × (gen_data_int parse_float parse_uint parse_time model
            max_id infos
          ≡ done rows)
        × AreRecords model (start_id max_id) infos rows
  unfolding gen_data_int
  gen_data_int-AreRecords model max_id infos k =
      gen_int_from-AreRecords model (start_id max_id) infos k
