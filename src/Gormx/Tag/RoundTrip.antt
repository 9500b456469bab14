-- ===== src/Gormx/Tag/RoundTrip.antt =====
-- A tag is read from its entries: each part is what the last of them gives.
use sub_sdk.Base.{
  List, [], ◌∷◌, eqb, eqb_eq, Bool-cases, inl, inr, All, All-append, All-map, ◌≡◌, ◌≢◌, refl, sym,
  ap, ◌∙◌, ℕ, arith, map, if◌then◌else◌,
}
use sub_sdk.Go.Text.{Bytes, bytes}
use sub_sdk.Go.Split.{split, join, Lacks, split-join}
use sub_sdk.Gormx.Tag.{SearchTag, empty_tag, set_key, set_part, parse_parts, make_tag}

-- One entry of a tag: a key and its values, which may be none.
abbrev pub Part : Type 0
Part = Bytes × List Bytes

abbrev written : Part → Bytes
written (k, vs) = join (b':' ∷ []) (k ∷ vs)

-- The text of a tag with these entries.
abbrev pub render : List Part → Bytes
render ps = join (b';' ∷ []) (map written ps)

-- A value holds neither of the two separators.
abbrev pub IsValue : Bytes → Type 0
IsValue v = Lacks b';' v × Lacks b':' v

Lacks-join : (b : ℕ) (ps : List Bytes) → b ≢ b':' → All (Lacks b) ps → Lacks b (join (b':' ∷ []) ps)
unfolding join
Lacks-join b [] n h = tt
Lacks-join b (p ∷ []) n (h, hs) = h
Lacks-join b (p ∷ q ∷ ps) n (h, hs) =
    All-append _ p (b':' ∷ join (b':' ∷ []) (q ∷ ps)) h
      ((λ e. n (sym e)), Lacks-join b (q ∷ ps) n hs)

-- The values after the first that are there.
if_none : List Bytes → List Bytes → List Bytes
if_none [] old = old
if_none (v ∷ vs) old = v ∷ vs

-- The first of the values, if there is one.
first_or : List Bytes → Bytes → Bytes
first_or [] old = old
first_or (v ∷ vs) old = v

abbrev given : Bytes → Part → List Bytes
given key (k, vs) = if eqb k key then vs else []

-- The values of the last entry that has the key and any values.
values_of : Bytes → List Part → List Bytes
unfolding if_none
values_of key [] = []
values_of key (p ∷ ps) = if_none (values_of key ps) (given key p)

-- A tag in which each part comes from the last entry that gives it, or else is that of `r`.
taken : (Bytes → List Bytes) → SearchTag → SearchTag
unfolding first_or if_none
taken at r = record {
  type = first_or (at (bytes "type")) r.type;
  column = first_or (at (bytes "column")) r.column;
  table = first_or (at (bytes "table")) r.table;
  on = if_none (at (bytes "on")) r.on;
  join = first_or (at (bytes "join")) r.join;
}

pub tag_of : List Part → SearchTag
unfolding taken values_of
tag_of ps = taken (λ key. values_of key ps) empty_tag

-- A key and its values set the part that the key names.
set_key-taken :
    (k : Bytes) (vs : List Bytes) (r : SearchTag)
    → set_key k vs r ≡ taken (λ key. given key (k, vs)) r
unfolding set_key taken first_or if_none eqb
set_key-taken k [] r = ground arith
set_key-taken k (v ∷ vs) r = elim (Bool-cases (eqb k (bytes "type"))) [
  | inl e ↦ rw (eqb_eq k (bytes "type") e) refl
  | inr n0 ↦ elim (Bool-cases (eqb k (bytes "column"))) [
    | inl e ↦ rw (eqb_eq k (bytes "column") e) refl
    | inr n1 ↦ elim (Bool-cases (eqb k (bytes "table"))) [
      | inl e ↦ rw (eqb_eq k (bytes "table") e) refl
      | inr n2 ↦ elim (Bool-cases (eqb k (bytes "on"))) [
        | inl e ↦ rw (eqb_eq k (bytes "on") e) refl
        | inr n3 ↦ elim (Bool-cases (eqb k (bytes "join"))) [
          | inl e ↦ rw (eqb_eq k (bytes "join") e) refl
          | inr n4 ↦ rw (set_key, n0, n1, n2, n3, n4) refl
        ]
      ]
    ]
  ]
]

first_or-if_none :
    (a b : List Bytes) (old : Bytes) → first_or (if_none a b) old ≡ first_or a (first_or b old)
unfolding first_or if_none
first_or-if_none [] b old = refl
first_or-if_none (x ∷ a) b old = refl

if_none_assoc : (a b old : List Bytes) → if_none (if_none a b) old ≡ if_none a (if_none b old)
unfolding if_none
if_none_assoc [] b old = refl
if_none_assoc (x ∷ a) b old = refl

taken_twice :
    (later now : Bytes → List Bytes) (r : SearchTag)
    → taken later (taken now r) ≡ taken (λ key. if_none (later key) (now key)) r
unfolding taken
taken_twice later now r =
    rw
      (
        first_or-if_none (later (bytes "type")) (now (bytes "type")) r.type,
        first_or-if_none (later (bytes "column")) (now (bytes "column")) r.column,
        first_or-if_none (later (bytes "table")) (now (bytes "table")) r.table,
        if_none_assoc (later (bytes "on")) (now (bytes "on")) r.on,
        first_or-if_none (later (bytes "join")) (now (bytes "join")) r.join,
      )
      refl

-- No key and no value holds one of the two separators.
abbrev pub IsPart : Part → Type 0
IsPart (k, vs) = IsValue k × All IsValue vs

parse_parts-written :
    (ps : List Part) (r : SearchTag)
    → All IsPart ps
    → parse_parts (map written ps) r ≡ taken (λ key. values_of key ps) r
unfolding parse_parts values_of
parse_parts-written [] r h = unfold taken first_or if_none in refl
parse_parts-written ((k, vs) ∷ ps) r ((hk, hs), h) =
    ap (λ l. parse_parts (map written ps) (set_part l r))
      (split-join b':' k vs (hk.1, All-map (λ x i. i.1) vs hs))
    ∙ (unfold set_part in ap (parse_parts (map written ps)) (set_key-taken k vs r))
    ∙ parse_parts-written ps (taken (λ key. given key (k, vs)) r) h
    ∙ taken_twice (λ key. values_of key ps) (λ key. given key (k, vs)) r

written-Lacks : (p : Part) → IsPart p → Lacks b';' (written p)
written-Lacks (k, vs) (hk, hs) =
    Lacks-join b';' (k ∷ vs) (omega arith) (hk.0, All-map (λ x i. i.0) vs hs)

writtens-Lacks : (ps : List Part) → All IsPart ps → All (Lacks b';') (map written ps)
writtens-Lacks [] h = tt
writtens-Lacks (p ∷ ps) (h, hs) = (written-Lacks p h, writtens-Lacks ps hs)

-- For entries whose keys and values hold neither a semicolon nor a colon, in any order, with keys left
-- out, repeated or unknown and with or without values, makeTag of their text has as each of its parts
-- what the last entry with that key and any values gives, and the empty one if there is none.
pub make_tag-render : (ps : List Part) → All IsPart ps → make_tag (render ps) ≡ tag_of ps
unfolding make_tag tag_of
make_tag-render [] h =
    unfold split join parse_parts set_part set_key values_of taken first_or if_none in refl
make_tag-render (p ∷ ps) (h, hs) =
    ap (λ l. parse_parts l empty_tag)
      (split-join b';' (written p) (map written ps) (written-Lacks p h, writtens-Lacks ps hs))
    ∙ parse_parts-written (p ∷ ps) empty_tag (h, hs)
