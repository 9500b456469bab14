-- ===== src/Gormx/Cached/Read/Right.antt =====
-- The reads give right values if the cache holds only right values and the queries give right ones.
use sub_sdk.Base.{ℤ, Option, none, some}
use sub_sdk.Go.Text.{Bytes}
use sub_sdk.Gormx.Cached.Read.{
  Result, ok, err, Reader, set_answer, index_answer, row_answer, query_row_index_ctx, expire_answer,
  query_ctx, query_with_expire_ctx, callback_answer, query_with_callback_expire_ctx,
}

-- A property of the value, if there is one.
abbrev pub OkHas {ℓ κ δ} : {V : Type ℓ} {E : Type κ} → (V → Type δ) → Result V E → Type δ
OkHas P (ok v) = P v
OkHas P (err e) = Unit

-- What the answer of a take on an index is: the primary key is right, and what was found beside it has the
-- property of the function.
abbrev pub IsIndexed {κ} : {V : Type κ} → (V → Type 0) → (V → V → Type 0) → V × Option V → Type 0
IsIndexed IsKey P (p, none) = IsKey p
IsIndexed IsKey P (p, some row) = P p row

module _ {ℓ κ υ} {S : Type ℓ} {V : Type κ} {E : Type υ} (reader : Reader S V E)
    (IsCoherent : S → Type 0) (IsRight : Bytes → V → Type 0) where
  -- A query that keeps the state coherent and whose value has the property.
  abbrev pub IsSound {δ ε} : {A : Type δ} → (A → Type ε) → (S → S × Result A E) → Type (ℓ ⊔ ε)
  IsSound P q = (t : S) → IsCoherent t → IsCoherent (q t).0 × OkHas P (q t).1

  -- What go-zero documents of the operations: a take answers with the cached value, or calls the function and
  -- caches its value; setting a right value keeps the cache right.
  pub record IsReader : Type (1 ⊔ ℓ ⊔ κ ⊔ υ) where
    pub taken :
        (k : Bytes) (q : S → S × Result V E)
        → IsSound (IsRight k) q
        → IsSound (IsRight k) (reader.take k q)
    pub taken_with_expire :
        (k : Bytes) (P : V → V → Type 0) (q : ℤ → S → S × Result (V × V) E)
        → ((p row : V) → P p row → IsRight k p)
        → ((x : ℤ) → IsSound (λ r. P r.0 r.1) (q x))
        → IsSound (IsIndexed (IsRight k) P) (reader.take_with_expire k q)
    pub kept :
        (k : Bytes) (v : V) (x : ℤ) (s : S)
        → IsRight k v
        → IsCoherent s
        → IsCoherent (reader.set_with_expire k v x s).0

  module _ (laws : IsReader) where
    -- A row with its primary key, right under the key of the index and its own.
    abbrev pub IsRow : Bytes → (V → Bytes) → V → V → Type 0
    IsRow key keyer p row = IsRight key p × IsRight (keyer p) row

    set_sound {δ} :
        {A : Type δ} (P : A → Type 0) (found : A) (r : S × Option E)
        → P found
        → IsCoherent r.0
        → IsCoherent (set_answer reader found r).0 × OkHas P (set_answer reader found r).1
    unfolding set_answer
    set_sound P found (s, none) h c = (c, h)
    set_sound P found (s, some e) h c = (c, tt)

    index_sound :
        (key : Bytes) (keyer : V → Bytes) (x : ℤ) (r : S × Result (V × V) E)
        → IsCoherent r.0
        → OkHas (λ f. IsRow key keyer f.0 f.1) r.1
        → IsCoherent (index_answer reader keyer x r).0
          × OkHas (λ f. IsRow key keyer f.0 f.1) (index_answer reader keyer x r).1
    unfolding index_answer
    index_sound key keyer x (s, err e) c h = (c, tt)
    index_sound key keyer x (s, ok (p, row)) c (hp, hr) =
        set_sound (λ f. IsRow key keyer f.0 f.1) (p, row) _ (hp, hr)
          (laws.kept (keyer p) row _ s hr c)

    -- A row that belongs to some right primary key.
    abbrev pub IsRowOf : Bytes → (V → Bytes) → V → Type κ
    IsRowOf key keyer row = (p : V) × IsRow key keyer p row

    row_sound :
        (key : Bytes) (keyer : V → Bytes) (primary_query : V → S → S × Result V E)
        (r : S × Result (V × Option V) E)
        → ((p : V) → IsSound (IsRight (keyer p)) (primary_query p))
        → IsCoherent r.0
        → OkHas (IsIndexed (IsRight key) (IsRow key keyer)) r.1
        → IsCoherent (row_answer reader keyer primary_query r).0
          × OkHas (IsRowOf key keyer) (row_answer reader keyer primary_query r).1
    unfolding row_answer
    row_sound key keyer primary_query (s, err e) sound c h = (c, tt)
    row_sound key keyer primary_query (s, ok (p, some row)) sound c h = (c, (p, h))
    row_sound key keyer primary_query (s, ok (p, none)) sound c h =
        let (c', h') = laws.taken (keyer p) (primary_query p) (sound p) s c in
        (c', with_key p h (reader.take (keyer p) (primary_query p) s).1 h')
      where
        with_key :
            (q : V)
            → IsRight key q
            → (r : Result V E) → OkHas (IsRight (keyer q)) r
            → OkHas (IsRowOf key keyer) r
        with_key q k (ok v) g = (q, (k, g))
        with_key q k (err e) g = tt

    -- Over a cache that holds only right values, and with queries that give right ones: a row that
    -- QueryRowIndexCtx answers with is the row of a primary key that is right for the index, wherever each of
    -- the two came from, and the cache still holds only right values, after an error too.
    pub query_row_index_ctx_sound :
        (key : Bytes) (keyer : V → Bytes) (index_query : S → S × Result (V × V) E)
        (primary_query : V → S → S × Result V E)
        → IsSound (λ f. IsRow key keyer f.0 f.1) index_query
        → ((p : V) → IsSound (IsRight (keyer p)) (primary_query p))
        → (s : S) → IsCoherent s
        → IsCoherent (query_row_index_ctx reader key keyer index_query primary_query s).0
          × OkHas
              (IsRowOf key keyer)
              (query_row_index_ctx reader key keyer index_query primary_query s).1
    unfolding query_row_index_ctx
    query_row_index_ctx_sound key keyer index_query primary_query si sp s c =
        let (c', h) =
          laws.taken_with_expire key (IsRow key keyer)
            (λ x t. index_answer reader keyer x (index_query t)) (λ p row r. r.0)
            (λ x t ct. index_sound key keyer x (index_query t) (si t ct).0 (si t ct).1) s c in
        row_sound key keyer primary_query _ sp c' h

    expire_sound :
        (key : Bytes) (x : ℤ) (r : S × Result V E)
        → IsCoherent r.0
        → OkHas (IsRight key) r.1
        → IsCoherent (expire_answer reader key x r).0
          × OkHas (IsRight key) (expire_answer reader key x r).1
    unfolding expire_answer
    expire_sound key x (s, err e) c h = (c, tt)
    expire_sound key x (s, ok v) c h = set_sound (IsRight key) v _ h (laws.kept key v x s h c)

    pub query_with_expire_ctx_sound :
        (around : ℤ) (key : Bytes) (query : S → S × Result V E)
        → IsSound (IsRight key) query
        → (s : S) → IsCoherent s
        → IsCoherent (query_with_expire_ctx reader around key query s).0
          × OkHas (IsRight key) (query_with_expire_ctx reader around key query s).1
    unfolding query_with_expire_ctx
    query_with_expire_ctx_sound around key query sq s c =
        let (c', h) = laws.taken key query sq s c in expire_sound key around _ c' h

    callback_sound :
        (key : Bytes) (query : S → S × Result V E) (callback : Option (V → ℤ)) (r : S × Result V E)
        → IsSound (IsRight key) query
        → IsCoherent r.0
        → OkHas (IsRight key) r.1
        → IsCoherent (callback_answer reader key query callback r).0
          × OkHas (IsRight key) (callback_answer reader key query callback r).1
    unfolding callback_answer query_ctx
    callback_sound key query callback (s, err e) sq c h = (c, tt)
    callback_sound key query none (s, ok v) sq c h = laws.taken key query sq s c
    callback_sound key query (some f) (s, ok v) sq c h =
        set_sound (IsRight key) v _ h (laws.kept key v (f v) s h c)

    -- The reads with a span of their own give right values too, and keep the cache right.
    pub queries_with_expire_sound :
        (around : ℤ) (key : Bytes) (query : S → S × Result V E) (callback : Option (V → ℤ))
        → IsSound (IsRight key) query
        → (s : S) → IsCoherent s
        → (IsCoherent (query_with_expire_ctx reader around key query s).0
            × OkHas (IsRight key) (query_with_expire_ctx reader around key query s).1)
          × (IsCoherent (query_with_callback_expire_ctx reader key query callback s).0
              × OkHas (IsRight key) (query_with_callback_expire_ctx reader key query callback s).1)
    unfolding query_with_callback_expire_ctx
    queries_with_expire_sound around key query callback sq s c =
        let (c', h) = laws.taken key query sq s c in
        (
          query_with_expire_ctx_sound around key query sq s c,
          callback_sound key query callback _ sq c' h,
        )
