-- ===== src/Gormx/Cached.antt =====
-- gormx/cachedgorm.go, the writes, and gormx/batchx/batchx.go. The database and the cache are one state, whose
-- operations are parameters; an error is `some`, and `none` is nil. batchx has a copy of UniqueKeys of stringx.
pub mod Clear
pub mod Read
mod Examples
use sub_sdk.Base.{Option, none, some, List, [], ◌∷◌, ◌++◌}
use sub_sdk.Go.Text.{Bytes}
use sub_sdk.Stringx.Keys.{unique_keys}

-- What the writes use of cache.Cache: a look at a key, and DelCtx.
pub record Cache {ℓ κ υ} (S : Type ℓ) (V : Type κ) (E : Type υ) : Type (ℓ ⊔ κ ⊔ υ) where
  pub get : Bytes → S → Option V
  pub del : List Bytes → S → S × Option E

module _ {ℓ κ υ} {S : Type ℓ} {V : Type κ} {E : Type υ} (cache : Cache S V E) where
  pub del_cache_ctx : List Bytes → S → S × Option E
  del_cache_ctx keys s = cache.del keys s

  after_exec : List Bytes → S × Option E → S × Option E
  after_exec keys (s, some e) = (s, some e)
  after_exec keys (s, none) = del_cache_ctx keys s

  -- ExecCtx
  pub exec_ctx : (S → S × Option E) → List Bytes → S → S × Option E
  unfolding after_exec
  exec_ctx exec keys s = after_exec keys (exec s)

-- The loop over the data of getCacheKeysByMultiData; `get_cache_keys` is the method of the model.
collect_model_keys {ℓ} : {D : Type ℓ} → (D → List Bytes) → List D → List Bytes
collect_model_keys get_cache_keys [] = []
collect_model_keys get_cache_keys (d ∷ rows) =
    get_cache_keys d ++ collect_model_keys get_cache_keys rows

pub get_cache_keys_by_multi_data {ℓ} : {D : Type ℓ} → (D → List Bytes) → List D → List Bytes
unfolding collect_model_keys
get_cache_keys_by_multi_data get_cache_keys [] = []
get_cache_keys_by_multi_data get_cache_keys (d ∷ rows) =
    unique_keys (collect_model_keys get_cache_keys (d ∷ rows))

-- BatchExecCtx for a model whose ExecCtx is that of a CachedConn.
module _ {ℓ κ υ δ} {S : Type ℓ} {V : Type κ} {E : Type υ} {D : Type δ} (cache : Cache S V E)
    (get_cache_keys : D → List Bytes) where
  pub batch_exec_ctx : List D → (S → S × Option E) → S → S × Option E
  unfolding get_cache_keys_by_multi_data
  batch_exec_ctx [] exec s = (s, none)
  batch_exec_ctx (d ∷ olds) exec s =
      exec_ctx cache exec (get_cache_keys_by_multi_data get_cache_keys (d ∷ olds)) s
