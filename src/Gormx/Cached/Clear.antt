-- ===== src/Gormx/Cached/Clear.antt =====
-- Which keys a batch of writes clears.
use sub_sdk.Base.{
  ◌≡◌, refl, sym, ap, ◌∙◌, ◌⊎◌, inl, inr, Bool, true, false, ◌||◌, Option, none, List, [], ◌∷◌,
  Bool-cases,
}
use sub_sdk.Go.Text.{Bytes}
use sub_sdk.Stringx.Keys.{has, has-append, unique_keys_lem}
use sub_sdk.Gormx.Cached.{
  Cache, del_cache_ctx, exec_ctx, collect_model_keys, get_cache_keys_by_multi_data, batch_exec_ctx,
}

-- What go-zero documents of DelCtx: without an error the keys that it is given have no value any more, and the
-- other keys have the value that they had.
pub record IsCache {ℓ κ υ} {S : Type ℓ} {V : Type κ} {E : Type υ} (cache : Cache S V E)
    : Type (ℓ ⊔ κ ⊔ υ) where
  pub deleted :
      (keys : List Bytes) (k : Bytes) (s s' : S)
      → cache.del keys s ≡ (s', none)
      → has k keys ≡ true
      → cache.get k s' ≡ none
  pub kept :
      (keys : List Bytes) (k : Bytes) (s s' : S)
      → cache.del keys s ≡ (s', none)
      → has k keys ≡ false
      → cache.get k s' ≡ cache.get k s

-- Some datum of the list has the key.
abbrev pub has_model_key {δ} : {D : Type δ} → (D → List Bytes) → Bytes → List D → Bool
has_model_key get_cache_keys k [] = false
has_model_key get_cache_keys k (d ∷ rows) =
    has k (get_cache_keys d) || has_model_key get_cache_keys k rows

module _ {δ} {D : Type δ} (get_cache_keys : D → List Bytes) where
  has-collect_model_keys :
      (k : Bytes) (rows : List D)
      → has k (collect_model_keys get_cache_keys rows) ≡ has_model_key get_cache_keys k rows
  unfolding collect_model_keys has
  has-collect_model_keys k [] = refl
  has-collect_model_keys k (d ∷ rows) =
      has-append k (get_cache_keys d) (collect_model_keys get_cache_keys rows)
      ∙ ap (λ b. has k (get_cache_keys d) || b) (has-collect_model_keys k rows)

  has-multi_data :
      (k : Bytes) (d : D) (rows : List D)
      → has k (get_cache_keys_by_multi_data get_cache_keys (d ∷ rows))
        ≡ has_model_key get_cache_keys k (d ∷ rows)
  unfolding get_cache_keys_by_multi_data
  has-multi_data k d rows = (unique_keys_lem _).1 k ∙ has-collect_model_keys k (d ∷ rows)

module _ {ℓ κ υ δ} {S : Type ℓ} {V : Type κ} {E : Type υ} {D : Type δ} (cache : Cache S V E)
    (laws : IsCache cache) (get_cache_keys : D → List Bytes) where
  exec_done :
      (exec : S → S × Option E) (keys : List Bytes) (s t : S)
      → exec s ≡ (t, none)
      → exec_ctx cache exec keys s ≡ cache.del keys t
  unfolding exec_ctx del_cache_ctx
  exec_done exec keys s t e = rw e refl

  -- After a batch of writes without an error no key of an old datum is cached, and every other key has the
  -- value that the writes left.
  pub batch_exec_ctx_clears :
      (d : D) (olds : List D) (exec : S → S × Option E) (s t s' : S) (k : Bytes)
      → exec s ≡ (t, none)
      → batch_exec_ctx cache get_cache_keys (d ∷ olds) exec s ≡ (s', none)
      → ((has_model_key get_cache_keys k (d ∷ olds) ≡ true) × (cache.get k s' ≡ none))
        ⊎ ((has_model_key get_cache_keys k (d ∷ olds) ≡ false) × (cache.get k s' ≡ cache.get k t))
  unfolding batch_exec_ctx
  batch_exec_ctx_clears d olds exec s t s' k e h =
      let keys = get_cache_keys_by_multi_data get_cache_keys (d ∷ olds) in
      let gone : cache.del keys t ≡ (s', none) = sym (exec_done exec keys s t e) ∙ h in
      elim (Bool-cases (has_model_key get_cache_keys k (d ∷ olds))) [
        | inl y ↦
            inl (y, laws.deleted keys k t s' gone (has-multi_data get_cache_keys k d olds ∙ y))
        | inr n ↦ inr (n, laws.kept keys k t s' gone (has-multi_data get_cache_keys k d olds ∙ n))
      ]
