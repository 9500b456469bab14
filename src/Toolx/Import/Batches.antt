-- ===== src/Toolx/Import/Batches.antt =====
-- The batches of an import, and what its transaction leaves in the table.
use mathlib.Core.Option.{some-injective, none-ne-some}
use sub_sdk.Base.{
  ℕ, zero, suc, ◌≤◌, ◌<◌, ◌≡◌, ◌⊎◌, inl, inr, refl, sym, ap, ◌∙◌, Bool, true, false, some, List, [],
  ◌∷◌, ◌++◌, length, take, drop, take-append-drop, length-take, length-drop, All, concat,
  append_assoc, append-nil, arith, Bool-cases, Option-cases,
}
use sub_sdk.Toolx.Import.{batch_size, batches_from, batches, create_batches, save_db}

module _ {ℓ} {A : Type ℓ} where
  concat-batches_from :
      (fuel : ℕ) (rest : List A) → length rest ≤ fuel → concat (batches_from fuel rest) ≡ rest
  unfolding batches_from
  concat-batches_from zero [] h = refl
  concat-batches_from zero (x ∷ rest) h = absurd (omega arith)
  concat-batches_from (suc fuel) [] h = refl
  concat-batches_from (suc fuel) (x ∷ rest) h =
      ap (λ l. take batch_size (x ∷ rest) ++ l)
        (concat-batches_from fuel (drop batch_size (x ∷ rest))
          (omega (arith, length-drop {ℓ} batch_size (x ∷ rest))))
      ∙ take-append-drop batch_size (x ∷ rest)

  abbrev pub IsBatch : List A → Type 0
  IsBatch b = (0 < length b) × (length b ≤ batch_size)

  batches_from-IsBatch : (fuel : ℕ) (rest : List A) → All IsBatch (batches_from fuel rest)
  unfolding batches_from
  batches_from-IsBatch zero rest = tt
  batches_from-IsBatch (suc fuel) [] = tt
  batches_from-IsBatch (suc fuel) (x ∷ rest) = (
    omega (arith, length-take {ℓ} batch_size (x ∷ rest)),
    batches_from-IsBatch fuel (drop batch_size (x ∷ rest)),
  )

  -- The batches of an import are never empty, hold a thousand rows at most, and are together the
  -- rows in their order.
  pub batches_lem : (rows : List A) → (concat (batches rows) ≡ rows) × All IsBatch (batches rows)
  unfolding batches
  batches_lem rows = (
    concat-batches_from (length rows) rows (omega arith),
    batches_from-IsBatch (length rows) rows,
  )

  module _ (accepts : List A → List A → Bool) (commits : List A → Bool) where
    create_batches-concat :
        (table : List A) (bs : List (List A)) (table' : List A)
        → create_batches accepts commits table bs ≡ some table'
        → table' ≡ table ++ concat bs
    unfolding create_batches
    create_batches-concat table [] table' e = sym (some-injective _ _ e) ∙ sym (append-nil table)
    create_batches-concat table (b ∷ bs) table' e = elim (Bool-cases (accepts table b)) [
      | inl a ↦
          create_batches-concat (table ++ b) bs table' (rw a at e)
          ∙ append_assoc table b (concat bs)
      | inr r ↦ absurd (none-ne-some _ (rw r at e))
    ]

    -- An import adds all its rows behind those of the table, in their order, and reports no error, if the
    -- commit succeeds; or it leaves the table as it was, and reports an error, or none if the commit failed.
    pub save_db-atomic :
        (table rows : List A)
        → ((commits (table ++ rows) ≡ true)
            × (save_db accepts commits table rows ≡ (table ++ rows, true)))
          ⊎ (((commits (table ++ rows) ≡ false)
                × (save_db accepts commits table rows ≡ (table, true)))
              ⊎ (save_db accepts commits table rows ≡ (table, false)))
    unfolding save_db
    save_db-atomic table rows =
        elim (Option-cases (create_batches accepts commits table (batches rows))) [
          | inl e ↦ inr (inr (rw e))
          | inr r ↦
              let all =
                create_batches-concat table (batches rows) r.0 r.1
                ∙ ap (λ l. table ++ l) (batches_lem rows).0 in
              elim (Bool-cases (commits (table ++ rows))) [
                | inl c ↦ inl (c, rw (r.1, all, c) refl)
                | inr c ↦ inr (inl (c, rw (r.1, all, c) refl))
              ]
        ]
