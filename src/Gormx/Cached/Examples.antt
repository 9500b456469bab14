-- ===== src/Gormx/Cached/Examples.antt =====
-- A cache of numbers, and writes that count.
use sub_sdk.Base.{
  ℕ, suc, ◌≡◌, ◌⊎◌, refl, ap, sym, ◌∙◌, true, false, Option, none, some, List, [], ◌∷◌, ◌++◌, eqb,
  if◌then◌else◌,
}
use sub_sdk.Go.Text.{Bytes, bytes}
use sub_sdk.Stringx.Keys.{has, unique_keys}
use sub_sdk.Gormx.Cached.{
  Cache, del_cache_ctx, get_cache_keys_by_multi_data, batch_exec_ctx, exec_ctx,
}
use sub_sdk.Gormx.Cached.Clear.{IsCache, has_model_key, batch_exec_ctx_clears}

-- A counter of the database, and the cached values.
abbrev Store : Type 0
Store = ℕ × (Bytes → Option ℕ)

abbrev without : List Bytes → Store → Store
without keys s = (s.0, λ k. if has k keys then none else s.1 k)

abbrev memory : Cache Store ℕ Bytes
memory = record { get = λ k s. s.1 k; del = λ keys s. (without keys s, none) }

memory-IsCache : IsCache memory
memory-IsCache = record {
  deleted = λ keys k s s' e h. looked keys k s s' e ∙ rw h refl;
  kept = λ keys k s s' e h. looked keys k s s' e ∙ rw h refl;
}
  where
    looked :
        (keys : List Bytes) (k : Bytes) (s s' : Store)
        → memory.del keys s ≡ (s', none)
        → memory.get k s' ≡ (if has k keys then none else s.1 k)
    looked keys k s s' e = sym (ap (λ r. r.0.1 k) e)

abbrev full : Store
full = (0, λ k. some 1)

abbrev counted : Store → Store × Option Bytes
counted s = ((suc s.0, s.1), none)

abbrev key_of : Bytes → List Bytes
key_of d = (bytes "user:" ++ d) ∷ []

abbrev keys_of_two : List Bytes
keys_of_two = bytes "user:1" ∷ bytes "user:2" ∷ []

batch_exec_ctx_clears_example :
    ((has_model_key key_of (bytes "user:2") (bytes "1" ∷ bytes "2" ∷ []) ≡ true)
      × (memory.get (bytes "user:2") (without keys_of_two (1, full.1)) ≡ none))
    ⊎ ((has_model_key key_of (bytes "user:2") (bytes "1" ∷ bytes "2" ∷ []) ≡ false)
        × (memory.get (bytes "user:2") (without keys_of_two (1, full.1))
            ≡ memory.get (bytes "user:2") (1, full.1)))
batch_exec_ctx_clears_example =
    batch_exec_ctx_clears memory memory-IsCache key_of (bytes "1") (bytes "2" ∷ []) counted full
      (1, full.1) (without keys_of_two (1, full.1)) (bytes "user:2") refl
      (unfold batch_exec_ctx exec_ctx del_cache_ctx get_cache_keys_by_multi_data unique_keys has
          eqb in
        refl)
