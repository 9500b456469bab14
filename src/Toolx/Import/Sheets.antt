-- ===== src/Toolx/Import/Sheets.antt =====
-- Which sheet `ReadExcelIo` reads for a name.
use native.Mathlib.Numerals.{add-one}
use sub_sdk.Base.{
  ℕ, suc, ◌+◌, ◌≡◌, refl, false, some, List, [], ◌∷◌, ◌++◌, done, panic, out_of_range, ◌>>=◌, eqb,
  eqb_refl, get_elem?, length, All, arith, ap, ◌∙◌,
}
use sub_sdk.Go.Text.{Bytes}
use sub_sdk.Toolx.Import.{Row, index_from, get_sheet_index_by_name, skip_title, rows_of, read_rows}

index_from-append :
    (before after : List Bytes) (name : Bytes) (i : ℕ)
    → All (λ n. eqb n name ≡ false) before
    → index_from i (before ++ (name ∷ after)) name ≡ some (i + length before + 1)
unfolding index_from
index_from-append [] after name i h = rw (eqb_refl name) (ap some (omega arith))
index_from-append (n ∷ before) after name i (h, hs) =
    rw h (index_from-append before after name (suc i) hs ∙ ap some (omega arith))

get_elem?-next :
    (before after : List Bytes) (name : Bytes)
    → get_elem? (before ++ (name ∷ after)) (length before + 1) ≡ get_elem? after 0
get_elem?-next [] after name = refl
get_elem?-next (n ∷ before) after name =
    rw add-one (rw add-one at (get_elem?-next before after name))

rows_of_next :
    (before after : List Bytes) (name : Bytes) (get_rows : Bytes → List Row) (i : ℕ)
    → i ≡ length before + 1
    → rows_of (before ++ (name ∷ after)) get_rows (some i) ≡ rows_of after get_rows (some 0)
unfolding rows_of
rows_of_next before after name get_rows i e = rw (e, get_elem?-next before after name)

read_named :
    (before after : List Bytes) (c : ℕ) (name : Bytes) (get_rows : Bytes → List Row)
    → All (λ n. eqb n (c ∷ name) ≡ false) before
    → read_rows (before ++ ((c ∷ name) ∷ after)) get_rows (c ∷ name)
      ≡ rows_of after get_rows (some 0)
unfolding read_rows get_sheet_index_by_name
read_named before after c name get_rows h =
    ap (rows_of (before ++ ((c ∷ name) ∷ after)) get_rows)
      (index_from-append before after (c ∷ name) 0 h)
    ∙ rows_of_next before after (c ∷ name) get_rows (0 + length before + 1) (omega arith)

-- Asked for a sheet by its name, `ReadExcelIo` reads the sheet behind the first one of that name, since the
-- index counts from 1 and the sheets from 0; for the last sheet of the workbook it panics.
pub read_rows_next_sheet :
    (before after : List Bytes) (c : ℕ) (name next : Bytes) (get_rows : Bytes → List Row)
    → All (λ n. eqb n (c ∷ name) ≡ false) before
    → (read_rows (before ++ ((c ∷ name) ∷ next ∷ after)) get_rows (c ∷ name)
        ≡ (skip_title (get_rows next) >>= λ rows. done (some rows)))
      × (read_rows (before ++ ((c ∷ name) ∷ [])) get_rows (c ∷ name) ≡ panic out_of_range)
unfolding rows_of
read_rows_next_sheet before after c name next get_rows h =
    (read_named before (next ∷ after) c name get_rows h, read_named before [] c name get_rows h)
