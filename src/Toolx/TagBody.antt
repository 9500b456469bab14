-- ===== src/Toolx/TagBody.antt =====
-- toolx/tag.go: the columns of a model, from the json and comment tags of its fields.
use sub_sdk.Base.{
  ℕ, suc, ◌≡◌, refl, ap, ◌∙◌, true, false, Option, none, some, List, [], ◌∷◌, ◌++◌, Run, done,
  panic, out_of_range, eqb, if◌then◌else◌, get_elem?, length, arith, Bool-cases, inl, inr, eqb_iff,
  map, length-append, length-map, map-append, select-append, sym, select, not, ◌≢◌, append_assoc,
  append-nil,
}
use sub_sdk.Go.Text.{Bytes}

-- A struct field as reflection shows it. A tag that is not there reads as the empty text.
pub record StructField : Type 0 where
  pub name : Bytes
  pub json : Bytes
  pub comment : Bytes

pub record TagBody : Type 0 where
  pub header : List Bytes
  pub keys : List Bytes
  pub field : List Bytes

-- The title of a column: its comment, or else its json name.
title_of : StructField → Bytes
title_of f = if eqb f.comment [] then f.json else f.comment

add_field : StructField → TagBody → TagBody
unfolding title_of
add_field f t = if eqb f.json [] then t else record {
  header = t.header ++ (title_of f ∷ []);
  keys = t.keys ++ (f.json ∷ []);
  field = t.field ++ (f.name ∷ []);
}

get_tag_from : TagBody → List StructField → TagBody
unfolding add_field
get_tag_from t [] = t
get_tag_from t (f ∷ fs) = get_tag_from (add_field f t) fs

unfoldable pub get_tag : List StructField → TagBody
unfolding get_tag_from
get_tag = get_tag_from (record { header = []; keys = []; field = [] })

-- t.Field[i]
field_at : Option Bytes → Run (Option Bytes)
field_at (some name) = done (some name)
field_at none = panic out_of_range

-- The loop of GetFieldByTag from index i on; `none` is the error.
find_from : List Bytes → ℕ → List Bytes → Bytes → Run (Option Bytes)
unfolding field_at
find_from field i [] tag = done none
find_from field i (v ∷ keys) tag =
    let later = find_from field (suc i) keys tag in
    if eqb v tag then field_at (get_elem? field i) else later

unfoldable pub get_field_by_tag : TagBody → Bytes → Run (Option Bytes)
unfolding find_from
get_field_by_tag t tag = find_from t.field 0 t.keys tag

-- The name of the first field whose json tag is `tag`.
pub first_with_json : Bytes → List StructField → Option Bytes
first_with_json tag [] = none
first_with_json tag (f ∷ fs) = if eqb f.json tag then some f.name else first_with_json tag fs

-- The fields that make a column.
abbrev columns : List StructField → List StructField
columns = select (λ f. not (eqb f.json []))

-- What one field appends to the three lists.
add_field-columns :
    (f : StructField) (t : TagBody)
    → ((add_field f t).keys ≡ t.keys ++ map (λ g. g.json) (columns (f ∷ [])))
      × ((add_field f t).field ≡ t.field ++ map (λ g. g.name) (columns (f ∷ [])))
      × ((add_field f t).header ≡ t.header ++ map title_of (columns (f ∷ [])))
unfolding add_field
add_field-columns f t = elim (Bool-cases (eqb f.json [])) [
  | inl e ↦ rw e (sym (append-nil t.keys), sym (append-nil t.field), sym (append-nil t.header))
  | inr e ↦ rw e (refl, refl, refl)
]

columns-cons :
    (g : StructField → Bytes) (f : StructField) (fs : List StructField) (a b c : List Bytes)
    → a ≡ b ++ map g (columns fs)
    → b ≡ c ++ map g (columns (f ∷ []))
    → a ≡ c ++ map g (columns (f ∷ fs))
columns-cons g f fs a b c p q =
    p
    ∙ (ap (λ l. l ++ map g (columns fs)) q
        ∙ (append_assoc c (map g (columns (f ∷ []))) (map g (columns fs))
            ∙ ap (λ l. c ++ l)
                (sym (map-append g (columns (f ∷ [])) (columns fs))
                  ∙ ap (map g) (sym (select-append (λ x. not (eqb x.json [])) (f ∷ []) fs)))))

get_tag_from-columns :
    (t : TagBody) (fs : List StructField)
    → ((get_tag_from t fs).keys ≡ t.keys ++ map (λ g. g.json) (columns fs))
      × ((get_tag_from t fs).field ≡ t.field ++ map (λ g. g.name) (columns fs))
      × ((get_tag_from t fs).header ≡ t.header ++ map title_of (columns fs))
unfolding get_tag_from
get_tag_from-columns t [] =
    (sym (append-nil t.keys), sym (append-nil t.field), sym (append-nil t.header))
get_tag_from-columns t (f ∷ fs) =
    let rest = get_tag_from-columns (add_field f t) fs in
    let first = add_field-columns f t in
    (
      columns-cons (λ g. g.json) f fs _ _ _ rest.0 first.0,
      columns-cons (λ g. g.name) f fs _ _ _ rest.1 first.1,
      columns-cons title_of f fs _ _ _ rest.2 first.2,
    )

get_elem?-append :
    (xs : List Bytes) (y : Bytes) (ys : List Bytes)
    → get_elem? (xs ++ (y ∷ ys)) (length xs) ≡ some y
get_elem?-append [] y ys = refl
get_elem?-append (x ∷ xs) y ys = get_elem?-append xs y ys

find_from-columns :
    (names before : List Bytes) (i : ℕ) (fs : List StructField) (tag : Bytes)
    → names ≡ before ++ map (λ g. g.name) fs
    → i ≡ length before
    → find_from names i (map (λ g. g.json) fs) tag ≡ done (first_with_json tag fs)
unfolding find_from first_with_json
find_from-columns names before i [] tag e p = refl
find_from-columns names before i (f ∷ fs) tag e p = elim (Bool-cases (eqb f.json tag)) [
  | inl b ↦ rw (b, e, p, get_elem?-append before f.name (map (λ g. g.name) fs)) refl
  | inr b ↦ rw b (
      find_from-columns names (before ++ (f.name ∷ [])) (suc i) fs tag
        (e ∙ sym (append_assoc before (f.name ∷ []) (map (λ g. g.name) fs)))
        (omega (arith, p, length-append {0} before (f.name ∷ []))))
]

first_with_json-columns :
    (tag : Bytes) (fs : List StructField)
    → tag ≢ []
    → first_with_json tag (columns fs) ≡ first_with_json tag fs
unfolding first_with_json
first_with_json-columns tag [] n = refl
first_with_json-columns tag (f ∷ fs) n = elim (Bool-cases (eqb f.json [])) [
  | inl e ↦ rw (e, not_tag e) (first_with_json-columns tag fs n)
  | inr e ↦ rw (e, first_with_json, first_with_json-columns tag fs n)
]
  where
    not_tag : eqb f.json [] ≡ true → eqb f.json tag ≡ false
    not_tag e = ground (arith, eqb_iff f.json tag, eqb_iff f.json [])

-- Looking up a json tag that is not empty in the columns of a model never panics, and gives the name of the
-- first field that has this tag; the three lists of columns are equally long.
pub get_field_by_tag-get_tag :
    (fs : List StructField) (tag : Bytes)
    → tag ≢ []
    → (get_field_by_tag (get_tag fs) tag ≡ done (first_with_json tag fs))
      × (length (get_tag fs).header ≡ length (get_tag fs).keys)
      × (length (get_tag fs).field ≡ length (get_tag fs).keys)
unfolding get_field_by_tag get_tag
get_field_by_tag-get_tag fs tag n =
    let (k, f, h) = get_tag_from-columns (record { header = []; keys = []; field = [] }) fs in
    (
      rw k (
          find_from-columns _ [] 0 (columns fs) tag f refl
          ∙ ap done (first_with_json-columns tag fs n)),
      ap length h
          ∙ (length-map title_of (columns fs)
              ∙ sym (ap length k ∙ length-map (λ g. g.json) (columns fs))),
      ap length f
          ∙ (length-map (λ g. g.name) (columns fs)
              ∙ sym (ap length k ∙ length-map (λ g. g.json) (columns fs))),
    )
