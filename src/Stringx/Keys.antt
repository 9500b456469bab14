-- ===== src/Stringx/Keys.antt =====
-- stringx/cache.go: the cache keys of records. How `%v` prints an id is a parameter.
use sub_sdk.Base.{
  ◌≡◌, inl, inr, refl, ◌∙◌, Bool, true, false, ◌||◌, Option, none, some, List, [], ◌∷◌, ◌++◌, eqb,
  eqb_refl, eqb_iff, if◌then◌else◌, arith, Bool-cases, All, All-map,
}
use sub_sdk.Go.Text.{Bytes}

-- _, ok := keySet[key]
unfoldable pub has : Bytes → List Bytes → Bool
has k [] = false
has k (x ∷ xs) = eqb x k || has k xs

-- The key set grows by each key, and is listed afterwards. Go leaves the order of the listing open;
-- here it is that of the first occurrences.
key_set : List Bytes → List Bytes → List Bytes
unfolding has
key_set seen [] = seen
key_set seen (k ∷ keys) = key_set (if has k seen then seen else seen ++ (k ∷ [])) keys

unfoldable pub unique_keys : List Bytes → List Bytes
unfolding key_set
unique_keys keys = key_set [] keys

module _ {ℓ} {Key : Type ℓ} (show : Key → Bytes) where
  -- A nil id has no key.
  pub custom_cache_keys : Bytes → Option Key → List Bytes
  custom_cache_keys format none = []
  custom_cache_keys format (some id) = (format ++ show id) ∷ []

  pub get_cache_keys : Bytes → Bytes → Option Key → List Bytes
  unfolding custom_cache_keys
  get_cache_keys expire prefix none = []
  get_cache_keys expire prefix (some id) =
      (expire ++ show id) ∷ [] ++ custom_cache_keys prefix (some id)

  multi_keys : List Bytes → Option Key → List Bytes
  unfolding custom_cache_keys
  multi_keys [] id = []
  multi_keys (v ∷ expires) id = custom_cache_keys v id ++ multi_keys expires id

  pub get_cache_multi_keys : Option Key → List Bytes → List Bytes
  unfolding multi_keys
  get_cache_multi_keys none expires = []
  get_cache_multi_keys (some id) expires = multi_keys expires (some id)

  collect_keys : List (Option Key) → List Bytes → List Bytes
  unfolding get_cache_multi_keys
  collect_keys [] expires = []
  collect_keys (v ∷ ids) expires = get_cache_multi_keys v expires ++ collect_keys ids expires

  pub get_cache_keys_by_id_list : List (Option Key) → List Bytes → List Bytes
  unfolding collect_keys
  get_cache_keys_by_id_list [] expires = []
  get_cache_keys_by_id_list (v ∷ ids) expires = unique_keys (collect_keys (v ∷ ids) expires)

abbrev pub IsSetOfKeys : List Bytes → Type 0
IsSetOfKeys [] = Unit
IsSetOfKeys (k ∷ keys) = (has k keys ≡ false) × IsSetOfKeys keys

pub has-append : (k : Bytes) (xs ys : List Bytes) → has k (xs ++ ys) ≡ (has k xs || has k ys)
unfolding has
has-append k [] ys = refl
has-append k (x ∷ xs) ys = ground (arith, has-append k xs ys)

IsSetOfKeys-append :
    (xs : List Bytes) (k : Bytes) → IsSetOfKeys xs → has k xs ≡ false → IsSetOfKeys (xs ++ (k ∷ []))
unfolding has
IsSetOfKeys-append [] k h e = (refl, tt)
IsSetOfKeys-append (x ∷ xs) k (h, hs) e =
    ground (arith, has-append x xs (k ∷ []), eqb_iff x k, eqb_iff k x, IsSetOfKeys-append xs k hs)

key_set-IsSetOfKeys : (keys seen : List Bytes) → IsSetOfKeys seen → IsSetOfKeys (key_set seen keys)
unfolding key_set
key_set-IsSetOfKeys [] seen h = h
key_set-IsSetOfKeys (k ∷ keys) seen h = elim (Bool-cases (has k seen)) [
  | inl e ↦ rw e (key_set-IsSetOfKeys keys seen h)
  | inr e ↦ rw e (key_set-IsSetOfKeys keys (seen ++ (k ∷ [])) (IsSetOfKeys-append seen k h e))
]

has-key_set :
    (j : Bytes) (keys seen : List Bytes) → has j (key_set seen keys) ≡ (has j seen || has j keys)
unfolding key_set
has-key_set j [] seen = ground arith
has-key_set j (k ∷ keys) seen = elim (Bool-cases (has k seen)) [
  | inl e ↦ rw e (has-key_set j keys seen ∙ ground (arith, eqb_iff k j))
  | inr e ↦
      rw e (has-key_set j keys (seen ++ (k ∷ [])) ∙ ground (arith, has-append j seen (k ∷ [])))
]

-- `UniqueKeys` lists no key twice, and exactly the keys that it was given.
pub unique_keys_lem :
    (keys : List Bytes)
    → IsSetOfKeys (unique_keys keys) × ((k : Bytes) → has k (unique_keys keys) ≡ has k keys)
unfolding unique_keys
unique_keys_lem keys = (key_set-IsSetOfKeys keys [] tt, λ k. has-key_set k keys [])

module _ {ℓ} {Key : Type ℓ} (show : Key → Bytes) where
  -- Every key of a record that has an id.
  abbrev pub HasKeysOf : List Bytes → List Bytes → Option Key → Type 0
  HasKeysOf keys expires none = Unit
  HasKeysOf keys expires (some id) = All (λ v. has (v ++ show id) keys ≡ true) expires

  has-multi_keys :
      (expires : List Bytes) (id : Key)
      → All (λ v. has (v ++ show id) (multi_keys show expires (some id)) ≡ true) expires
  unfolding multi_keys has
  has-multi_keys [] id = tt
  has-multi_keys (v ∷ expires) id = (
    ground (arith, eqb_refl (v ++ show id)),
    All-map (λ j h. has_tail (j ++ show id) (v ++ show id) (multi_keys show expires (some id)) h)
        expires (has-multi_keys expires id),
  )
    where
      has_tail : (k x : Bytes) (xs : List Bytes) → has k xs ≡ true → (eqb x k || has k xs) ≡ true
      has_tail k x xs h = ground arith

  has-collect_keys :
      (ids : List (Option Key)) (expires : List Bytes)
      → All (HasKeysOf (collect_keys show ids expires) expires) ids
  unfolding collect_keys
  has-collect_keys [] expires = tt
  has-collect_keys (none ∷ ids) expires = (tt, has-collect_keys ids expires)
  has-collect_keys (some id ∷ ids) expires = (
    All-map
        (λ v h.
          before (v ++ show id) (multi_keys show expires (some id)) (collect_keys show ids expires)
            h)
        expires (has-multi_keys expires id),
    All-map (λ o h. later o h) ids (has-collect_keys ids expires),
  )
    where
      before : (k : Bytes) (xs ys : List Bytes) → has k xs ≡ true → has k (xs ++ ys) ≡ true
      before k xs ys h = ground (arith, has-append k xs ys)

      behind : (k : Bytes) (xs ys : List Bytes) → has k ys ≡ true → has k (xs ++ ys) ≡ true
      behind k xs ys h = ground (arith, has-append k xs ys)

      later :
          (o : Option Key)
          → HasKeysOf (collect_keys show ids expires) expires o
          → HasKeysOf (multi_keys show expires (some id) ++ collect_keys show ids expires) expires o
      later none h = tt
      later (some j) h =
          All-map
            (λ v e.
              behind (v ++ show j) (multi_keys show expires (some id))
                (collect_keys show ids expires) e)
            expires h

  through_unique :
      (keys expires : List Bytes) (o : Option Key)
      → HasKeysOf keys expires o
      → HasKeysOf (unique_keys keys) expires o
  through_unique keys expires none h = tt
  through_unique keys expires (some id) h =
      All-map (λ v e. (unique_keys_lem keys).1 (v ++ show id) ∙ e) expires h

  -- The keys for a list of ids are listed once each, and hold every prefix with every id that is not
  -- nil.
  pub get_cache_keys_by_id_list_complete :
      (ids : List (Option Key)) (expires : List Bytes)
      → IsSetOfKeys (get_cache_keys_by_id_list show ids expires)
        × All (HasKeysOf (get_cache_keys_by_id_list show ids expires) expires) ids
  unfolding get_cache_keys_by_id_list
  get_cache_keys_by_id_list_complete [] expires = (tt, tt)
  get_cache_keys_by_id_list_complete (v ∷ ids) expires = (
    (unique_keys_lem _).0,
    All-map (λ o h. through_unique (collect_keys show (v ∷ ids) expires) expires o h) (v ∷ ids)
        (has-collect_keys (v ∷ ids) expires),
  )
