-- ===== src/Pathx/Files/Names.antt =====
-- pathx/file.go FileNameWithoutExt, pathx/path.go PathFromGoSrc: parts of names.
use sub_sdk.Base.{
  ℕ, ◌+◌, ◌-◌, ◌≡◌, ◌∙◌, refl, sym, ap, true, false, some, [], ◌∷◌, ◌++◌, append_assoc, append-nil,
  length, length-append, take, drop, take_prefix, drop_prefix, eqb_refl, leb, if◌then◌else◌, arith,
  ltb, lt→ltb, done, panic, out_of_range,
}
use sub_sdk.Go.Text.{Bytes}
use sub_sdk.Go.Index.{index, index-append}
use sub_sdk.Go.Path.{slash, ext}
use sub_sdk.Go.Path.Suffix.{ext-suffix}
use sub_sdk.Filex.Extract.{has_suffix}
use sub_sdk.Pathx.Files.{file_name_without_ext, path_from_go_src, after_parent}

trim_end :
    (file end before : Bytes)
    → file ≡ before ++ end
    → (if has_suffix file end then take (length file - length end) file else file) ++ end ≡ file
trim_end file end before e =
    let n = length file - length end in
    let size = length-append before end in
    let sizes : length file ≡ length before + length end = ap length e ∙ size in
    let here : n ≡ length before = omega (arith, sizes) in
    let first : take n file ≡ before = ap (take n) e ∙ take_prefix before end n here in
    let last : drop n file ≡ end = ap (drop n) e ∙ drop_prefix before end n here in
    let fits : leb (length end) (length file) ≡ true = ground arith in
    rw (fits, last, eqb_refl end, first) (sym e)

-- A name without its extension, followed by the extension, is the name.
pub file_name_without_ext-ext : (file : Bytes) → file_name_without_ext file ++ ext file ≡ file
unfolding file_name_without_ext
file_name_without_ext-ext file =
    let (before, e) = ext-suffix file in trim_end file (ext file) before e

src_found :
    (dir parent : Bytes) (pos : ℕ)
    → index parent dir ≡ some pos
    → path_from_go_src dir parent ≡ after_parent dir parent
unfolding path_from_go_src
src_found dir parent pos h = rw (path_from_go_src, h) refl

after_parent-slash :
    (parent below : Bytes) → after_parent (parent ++ slash ∷ below) parent ≡ done (some below)
unfolding after_parent
after_parent-slash parent below =
    let sizes = length-append parent (slash ∷ below) in
    let long_enough : ltb (length (parent ++ slash ∷ below)) (length parent + 1) ≡ false =
      ground arith in
    let same = append_assoc parent (slash ∷ []) below in
    let size : length parent + 1 ≡ length (parent ++ slash ∷ []) =
      omega (arith, length-append parent (slash ∷ [])) in
    rw long_enough (
      ap (λ t. done (some (drop (length parent + 1) t))) (sym same)
      ∙ ap (λ t. done (some t)) (drop_prefix (parent ++ slash ∷ []) below _ size))

-- PathFromGoSrc panics in the directory of the project itself, and not below it: there it gives the
-- names after that directory, and the slash before them is left out.
pub path_from_go_src_lem :
    (c : ℕ) (parent below : Bytes)
    → (path_from_go_src (c ∷ parent) (c ∷ parent) ≡ panic out_of_range)
      × (path_from_go_src ((c ∷ parent) ++ slash ∷ below) (c ∷ parent) ≡ done (some below))
unfolding path_from_go_src after_parent
path_from_go_src_lem c parent below = (
  src_found (c ∷ parent) (c ∷ parent) 0
        (ap (λ d. index (c ∷ parent) d) (sym (append-nil (c ∷ parent))) ∙ index-append c parent [])
      ∙ rw (lt→ltb (length (c ∷ parent)) (length (c ∷ parent) + 1) (omega arith)) refl,
  src_found ((c ∷ parent) ++ slash ∷ below) (c ∷ parent) 0 (index-append c parent (slash ∷ below))
      ∙ after_parent-slash (c ∷ parent) below,
)
