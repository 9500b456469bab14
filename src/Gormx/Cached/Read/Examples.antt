-- ===== src/Gormx/Cached/Read/Examples.antt =====
-- A cache in memory over a database in which the value under a key is the length of the key.
use mathlib.Core.Option.{some-injective, none-ne-some}
use sub_sdk.Base.{
  ℕ, ◌≡◌, refl, sym, ap, ◌∙◌, ℤ, pos, Option, none, some, eqb, eqb_eq, if◌then◌else◌, length,
  Bool-cases, inl, inr,
}
use sub_sdk.Go.Text.{Bytes, bytes}
use sub_sdk.Gormx.Cached.Read.{Result, ok, err, Reader, query_row_index_ctx}
use sub_sdk.Gormx.Cached.Read.Right.{
  OkHas, IsIndexed, IsReader, IsSound, IsRowOf, query_row_index_ctx_sound,
}

abbrev Store : Type 0
Store = Bytes → Option ℕ

abbrev put : Bytes → ℕ → Store → Store
put k v s j = if eqb k j then some v else s j

store_found : Bytes → Store × Result ℕ Bytes → Store × Result ℕ Bytes
store_found k (t, ok v) = (put k v t, ok v)
store_found k (t, err e) = (t, err e)

take_from : Bytes → (Store → Store × Result ℕ Bytes) → Store → Option ℕ → Store × Result ℕ Bytes
unfolding store_found
take_from k q s (some v) = (s, ok v)
take_from k q s none = store_found k (q s)

store_index : Bytes → Store × Result (ℕ × ℕ) Bytes → Store × Result (ℕ × Option ℕ) Bytes
store_index k (t, ok (p, row)) = (put k p t, ok (p, some row))
store_index k (t, err e) = (t, err e)

take_index :
    Bytes
    → (ℤ → Store → Store × Result (ℕ × ℕ) Bytes)
    → Store
    → Option ℕ
    → Store × Result (ℕ × Option ℕ) Bytes
unfolding store_index
take_index k q s (some p) = (s, ok (p, none))
take_index k q s none = store_index k (q (pos 60000000000) s)

abbrev memory : Reader Store ℕ Bytes
memory = record {
  take = λ k q s. take_from k q s (s k);
  take_with_expire = λ k q s. take_index k q s (s k);
  set_with_expire = λ k v x s. (put k v s, none);
}

abbrev IsLength : Bytes → ℕ → Type 0
IsLength k v = v ≡ length k

abbrev IsCoherent : Store → Type 0
IsCoherent s = (k : Bytes) (v : ℕ) → s k ≡ some v → IsLength k v

put-IsCoherent :
    (k : Bytes) (v : ℕ) (s : Store) → IsLength k v → IsCoherent s → IsCoherent (put k v s)
put-IsCoherent k v s h c j w e = elim (Bool-cases (eqb k j)) [
  | inl b ↦ sym (some-injective _ _ (rw b at e)) ∙ (h ∙ ap length (eqb_eq k j b))
  | inr b ↦ c j w (rw b at e)
]

module _ (k : Bytes) where
  store_found_sound :
      (r : Store × Result ℕ Bytes)
      → IsCoherent r.0
      → OkHas (IsLength k) r.1
      → IsCoherent (store_found k r).0 × OkHas (IsLength k) (store_found k r).1
  unfolding store_found
  store_found_sound (t, ok v) c h = (put-IsCoherent k v t h c, h)
  store_found_sound (t, err e) c h = (c, tt)

  take_from_sound :
      (q : Store → Store × Result ℕ Bytes) (s : Store) (o : Option ℕ)
      → IsSound memory IsCoherent IsLength (IsLength k) q
      → ((v : ℕ) → o ≡ some v → IsLength k v)
      → IsCoherent s
      → IsCoherent (take_from k q s o).0 × OkHas (IsLength k) (take_from k q s o).1
  unfolding take_from
  take_from_sound q s (some v) sq h c = (c, h v refl)
  take_from_sound q s none sq h c = store_found_sound (q s) (sq s c).0 (sq s c).1

  store_index_sound :
      (P : ℕ → ℕ → Type 0) (r : Store × Result (ℕ × ℕ) Bytes)
      → ((p row : ℕ) → P p row → IsLength k p)
      → IsCoherent r.0
      → OkHas (λ f. P f.0 f.1) r.1
      → IsCoherent (store_index k r).0 × OkHas (IsIndexed (IsLength k) P) (store_index k r).1
  unfolding store_index
  store_index_sound P (t, ok (p, row)) f c h = (put-IsCoherent k p t (f p row h) c, h)
  store_index_sound P (t, err e) f c h = (c, tt)

  take_index_sound :
      (P : ℕ → ℕ → Type 0) (q : ℤ → Store → Store × Result (ℕ × ℕ) Bytes) (s : Store) (o : Option ℕ)
      → ((p row : ℕ) → P p row → IsLength k p)
      → ((x : ℤ) → IsSound memory IsCoherent IsLength (λ r. P r.0 r.1) (q x))
      → ((v : ℕ) → o ≡ some v → IsLength k v)
      → IsCoherent s
      → IsCoherent (take_index k q s o).0 × OkHas (IsIndexed (IsLength k) P) (take_index k q s o).1
  unfolding take_index
  take_index_sound P q s (some p) f sq h c = (c, h p refl)
  take_index_sound P q s none f sq h c =
      store_index_sound P (q (pos 60000000000) s) f (sq _ s c).0 (sq _ s c).1

memory-IsReader : IsReader memory IsCoherent IsLength
memory-IsReader = record {
  taken = λ k q sq s c. take_from_sound k q s (s k) sq (λ v e. c k v e) c;
  taken_with_expire = λ k P q f sq s c. take_index_sound k P q s (s k) f sq (λ v e. c k v e) c;
  kept = λ k v x s h c. put-IsCoherent k v s h c;
}

abbrev empty : Store
empty k = none

abbrev keyer : ℕ → Bytes
keyer n = bytes "user"

abbrev find_index : Store → Store × Result (ℕ × ℕ) Bytes
find_index s = (s, ok (3, 4))

abbrev find_row : ℕ → Store → Store × Result ℕ Bytes
find_row p s = (s, ok 4)

-- From an empty cache the row 4 is found by the name "ann", whose primary key is 3.
query_row_index_ctx_sound_example :
    IsCoherent (query_row_index_ctx memory (bytes "ann") keyer find_index find_row empty).0
    × OkHas
        (IsRowOf memory IsCoherent IsLength memory-IsReader (bytes "ann") keyer)
        (query_row_index_ctx memory (bytes "ann") keyer find_index find_row empty).1
query_row_index_ctx_sound_example =
    query_row_index_ctx_sound memory IsCoherent IsLength memory-IsReader (bytes "ann") keyer
      find_index find_row (λ t c. (c, (refl, refl))) (λ p t c. (c, refl)) empty
      (λ k v e. absurd (none-ne-some _ e))
