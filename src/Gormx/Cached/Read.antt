-- ===== src/Gormx/Cached/Read.antt =====
-- gormx/cachedgorm.go, the reads. The database and the cache are one state, whose operations are parameters.
-- A value is a row or a primary key, and a time span is in nanoseconds.
pub mod Right
mod Examples
use sub_sdk.Base.{ℤ, pos, add64, Option, none, some}
use sub_sdk.Go.Text.{Bytes}

pub data Result {ℓ κ} (V : Type ℓ) (E : Type κ) : Type (ℓ ⊔ κ) where
  ok : V → Result V E
  err : E → Result V E

-- What the reads use of cache.Cache. `take_with_expire` answers with the value under the key, and with what
-- its function found beside the value if it was called.
pub record Reader {ℓ κ υ} (S : Type ℓ) (V : Type κ) (E : Type υ) : Type (ℓ ⊔ κ ⊔ υ) where
  pub take : Bytes → (S → S × Result V E) → S → S × Result V E
  pub take_with_expire : Bytes → (ℤ → S → S × Result (V × V) E) → S → S × Result (V × Option V) E
  pub set_with_expire : Bytes → V → ℤ → S → S × Option E

-- cacheSafeGapBetweenIndexAndPrimary, five seconds
abbrev pub cache_safe_gap : ℤ
cache_safe_gap = pos 5000000000

module _ {ℓ κ υ} {S : Type ℓ} {V : Type κ} {E : Type υ} (reader : Reader S V E) where
  -- What was found, or the error of the set behind it.
  set_answer {δ} : {A : Type δ} → A → S × Option E → S × Result A E
  set_answer found (s, none) = (s, ok found)
  set_answer found (s, some e) = (s, err e)

  -- That function after the query on the index.
  index_answer : (V → Bytes) → ℤ → S × Result (V × V) E → S × Result (V × V) E
  unfolding set_answer
  index_answer keyer expire (s, err e) = (s, err e)
  index_answer keyer expire (s, ok (primary, row)) =
      set_answer (primary, row)
        (reader.set_with_expire (keyer primary) row (add64 expire cache_safe_gap) s)

  -- The end of QueryRowIndexCtx: the row if the function was called, or else the one under the primary key.
  row_answer : (V → Bytes) → (V → S → S × Result V E) → S × Result (V × Option V) E → S × Result V E
  row_answer keyer primary_query (s, err e) = (s, err e)
  row_answer keyer primary_query (s, ok (primary, some row)) = (s, ok row)
  row_answer keyer primary_query (s, ok (primary, none)) =
      reader.take (keyer primary) (primary_query primary) s

  pub query_row_index_ctx :
      Bytes
      → (V → Bytes)
      → (S → S × Result (V × V) E)
      → (V → S → S × Result V E)
      → S
      → S × Result V E
  unfolding index_answer row_answer
  query_row_index_ctx key keyer index_query primary_query s =
      row_answer keyer primary_query
        (reader.take_with_expire key (λ expire t. index_answer keyer expire (index_query t)) s)

  pub query_ctx : Bytes → (S → S × Result V E) → S → S × Result V E
  query_ctx key query s = reader.take key query s

  expire_answer : Bytes → ℤ → S × Result V E → S × Result V E
  unfolding set_answer
  expire_answer key expire (s, err e) = (s, err e)
  expire_answer key expire (s, ok v) = set_answer v (reader.set_with_expire key v expire s)

  -- `around` is what aroundDuration makes of the span.
  pub query_with_expire_ctx : ℤ → Bytes → (S → S × Result V E) → S → S × Result V E
  unfolding expire_answer
  query_with_expire_ctx around key query s = expire_answer key around (reader.take key query s)

  -- A callback that is nil asks the cache once more.
  callback_answer : Bytes → (S → S × Result V E) → Option (V → ℤ) → S × Result V E → S × Result V E
  unfolding set_answer
  callback_answer key query callback (s, err e) = (s, err e)
  callback_answer key query none (s, ok v) = query_ctx key query s
  callback_answer key query (some f) (s, ok v) = set_answer v (reader.set_with_expire key v (f v) s)

  pub query_with_callback_expire_ctx :
      Bytes → (S → S × Result V E) → Option (V → ℤ) → S → S × Result V E
  unfolding callback_answer
  query_with_callback_expire_ctx key query callback s =
      callback_answer key query callback (reader.take key query s)
