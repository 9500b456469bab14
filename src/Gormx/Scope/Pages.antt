-- ===== src/Gormx/Scope/Pages.antt =====
-- `Paginate`, and the page of gormx/modelx/model.go: the pages of a table, one after another.
use sub_sdk.Base.{
  ℕ, zero, suc, ◌+◌, ◌*◌, ◌-◌, ◌<◌, ◌^◌, ◌≡◌, refl, sym, ap, ◌∙◌, ℤ, pos, lez, ltz, sub64_pos,
  mul64_pos, false, List, [], ◌∷◌, ◌++◌, take, drop, if◌then◌else◌, arith,
}
use native.Mathlib.Nat.{zero-mul, suc-mul}
use sub_sdk.Gormx.Scope.{Call, offset_call, limit_call, paginate}

-- Pagination
pub record Pagination : Type 0 where
  pub page_index : ℤ
  pub page_size : ℤ

unfoldable pub get_page_index : Pagination → ℤ × Pagination
get_page_index m =
    if lez m.page_index (pos 0) then (pos 1, record m { page_index = pos 1 }) else (m.page_index, m)

unfoldable pub get_page_size : Pagination → ℤ × Pagination
get_page_size m =
    if lez m.page_size (pos 0) then (pos 10, record m { page_size = pos 10 }) else (m.page_size, m)

module _ {ℓ} {A : Type ℓ} where
  -- What Offset and Limit leave of the rows, as gorm documents them; a negative limit takes no effect.
  abbrev pub window : List (Call A) → List A → List A
  window (offset_call (pos o) ∷ limit_call (pos l) ∷ []) rows = take l (drop o rows)
  window _ rows = rows

  -- The pages 1 to n.
  abbrev pub pages : ℤ → ℕ → List A → List A
  pages size zero rows = []
  pages size (suc n) rows = pages size n rows ++ window (paginate size (pos (suc n))) rows

  take_nil : (k : ℕ) → take {A = A} k [] ≡ []
  take_nil zero = refl
  take_nil (suc k) = refl

  take_add : (a b : ℕ) (rows : List A) → take a rows ++ take b (drop a rows) ≡ take (a + b) rows
  take_add zero b rows = ap (λ k. take k rows) (omega arith)
  take_add (suc a) b [] = take_nil b ∙ sym (take_nil (suc a + b))
  take_add (suc a) b (x ∷ rows) =
      ap (λ l. x ∷ l) (take_add a b rows) ∙ ap (λ k. take k (x ∷ rows)) (suc_add a b)
    where
      suc_add : (m n : ℕ) → suc (m + n) ≡ suc m + n
      suc_add m n = omega arith

  window_page :
      (s n : ℕ) (rows : List A)
      → n * s < 2 ^ 63
      → suc n < 2 ^ 63
      → window (paginate (pos s) (pos (suc n))) rows ≡ take s (drop (n * s) rows)
  unfolding paginate
  window_page s n rows h k =
      rw (sub64_pos (suc n) 1 (omega arith) k, less_one n, mul64_pos n s h, ltz_pos (n * s)) refl
    where
      less_one : (m : ℕ) → suc m - 1 ≡ m
      less_one m = omega arith

      ltz_pos : (m : ℕ) → ltz (pos m) (pos 0) ≡ false
      ltz_pos m = ground arith

  -- Pages of a positive size, up to a count whose rows an int64 counts: the pages from the first on, one after
  -- another, are the first rows of the table, each once and in order.
  pub pages_lem :
      (s n : ℕ) (rows : List A)
      → 0 < s
      → n * s < 2 ^ 63
      → n < 2 ^ 63
      → pages (pos s) n rows ≡ take (n * s) rows
  pages_lem s zero rows p h k = ap (λ m. take m rows) (sym (zero-mul s))
  pages_lem s (suc n) rows p h k =
      ap (λ l. l ++ window (paginate (pos s) (pos (suc n))) rows)
        (pages_lem s n rows p (omega (arith, suc-mul n s)) (omega arith))
      ∙ (ap (λ l. take (n * s) rows ++ l) (window_page s n rows (omega (arith, suc-mul n s)) k)
          ∙ (take_add (n * s) s rows ∙ ap (λ m. take m rows) (sym (suc-mul n s))))
