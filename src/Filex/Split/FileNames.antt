-- ===== src/Filex/Split/FileNames.antt =====
-- filex/tar.go createNewSplitFile, filex/zip.go createNewZipWriter: the file names of the parts.
use mathlib.Core.List.{append_cancel_left, append_cancel_right}
use sub_sdk.Base.{
  ℕ, zero, suc, ◌≡◌, ◌∙◌, sym, ap, ◌++◌, length, length-append, arith, ◌≢◌, ◌<◌, refl, lt→ltb,
}
use sub_sdk.Go.Text.{Bytes, bytes}
use sub_sdk.Go.Number.{show, show_inj}
use sub_sdk.Filex.Split.{part_name}

part_name-later :
    (prefix suffix : Bytes) (n : ℕ)
    → 0 < n
    → part_name prefix suffix n ≡ prefix ++ (bytes "_" ++ (show n ++ suffix))
unfolding part_name
part_name-later prefix suffix n h = rw (lt→ltb 0 n h) refl

part_name_first :
    (prefix suffix : Bytes) (m : ℕ) → 0 < m → part_name prefix suffix 0 ≢ part_name prefix suffix m
unfolding part_name
part_name_first prefix suffix m h e =
    let tails = append_cancel_left prefix _ _ (e ∙ part_name-later prefix suffix m h) in
    let sizes = ap length tails in omega (arith, sizes, length-append (show m) suffix)

-- Two parts have the same file name only if they have the same number.
pub part_name_inj :
    (prefix suffix : Bytes) (n m : ℕ)
    → part_name prefix suffix n ≡ part_name prefix suffix m
    → n ≡ m
part_name_inj prefix suffix zero zero e = λ i. 0
part_name_inj prefix suffix zero (suc m) e =
    absurd (part_name_first prefix suffix (suc m) (omega arith) e)
part_name_inj prefix suffix (suc n) zero e =
    absurd (part_name_first prefix suffix (suc n) (omega arith) (sym e))
part_name_inj prefix suffix (suc n) (suc m) e =
    let texts =
      sym (part_name-later prefix suffix (suc n) (omega arith))
      ∙ e
      ∙ part_name-later prefix suffix (suc m) (omega arith) in
    let tails = append_cancel_left (bytes "_") _ _ (append_cancel_left prefix _ _ texts) in
    show_inj (suc n) (suc m) (append_cancel_right (show (suc n)) (show (suc m)) suffix tails)
