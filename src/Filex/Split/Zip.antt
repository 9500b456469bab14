-- ===== src/Filex/Split/Zip.antt =====
-- filex/zip.go ZipDirAndSplit: what one visit does to the parts, and the whole run.
use sub_sdk.Base.{ℕ, ◌≡◌, true, [], ◌∷◌, ◌++◌, append_assoc, append-nil, arith}
use sub_sdk.Go.Text.{Bytes, bytes}
use sub_sdk.Filex.{
  got, Step, ◌>>◌, Read, no_open, cut, whole, Node, file, dir, sealed, link, special, broken, Names,
  rel, labelled,
}
use sub_sdk.Filex.Items.{body}
use sub_sdk.Filex.Walk.{Visits}
use sub_sdk.Filex.Archive.{answer, zip_header}
use sub_sdk.Filex.Archive.Zip.{zip_items, zip_own, IsWhole, IsZipSound}
use sub_sdk.Filex.Split.{
  Parts, SplitTarget, create_part, create_zip_part, next_number, when_full, no_parts,
  zip_split_visit, zip_split_file, zip_dir_and_split,
}
use sub_sdk.Filex.Split.Invariant.{
  ClosesAll, total, all_pieces, IsBetween, Leaves, Leaves-Appends, when_full-Leaves, next_part,
  with_items, first_part, IsComplete, run-IsComplete,
}

abbrev suffix : Bytes
suffix = bytes ".zip"

module _ (t : SplitTarget) (max_size : ℕ) (closes : ClosesAll t) where
  next : Step Parts Unit
  unfolding create_zip_part
  next = next_number >> create_zip_part t

  next-got :
      (p s' : Parts) → p.is_open ≡ true → next p ≡ (s', got tt) → s' ≡ next_part t suffix max_size p
  unfolding next create_zip_part create_part
  next-got p s' o h = ground (arith, closes p.file_name p.items)

  file_written :
      (name bs : Bytes) (s s' : Parts)
      → zip_split_file t max_size name (whole bs) s ≡ (s', got tt)
      → when_full max_size next (with_items t suffix max_size (zip_items name (whole bs)) s)
        ≡ (s', got tt)
  unfolding zip_split_file total next zip_header
  file_written name bs s s' h =
      ground (arith, append_assoc s.items (zip_header name ∷ []) (body bs ∷ []))

  file-Leaves :
      (name : Bytes) (r : Read) (s s' : Parts)
      → s.is_open ≡ true
      → zip_split_file t max_size name r s ≡ (s', got tt)
      → Leaves t suffix max_size (zip_items name r) s s' × IsWhole r
  unfolding zip_split_file
  file-Leaves name (whole bs) s s' o h = (
    when_full-Leaves t suffix max_size next (zip_items name (whole bs)) s s' next-got o
        (file_written name bs s s' h),
    tt,
  )
  file-Leaves name (no_open e) s s' o h = ground arith
  file-Leaves name (cut bs e) s s' o h = ground arith

  visit-Leaves :
      (names : Names) (node : Node) (s s' : Parts)
      → s.is_open ≡ true
      → zip_split_visit t max_size names node s ≡ (s', got tt)
      → Leaves t suffix max_size (zip_own names node) s s' × IsZipSound node
  unfolding zip_split_visit total
  visit-Leaves names (file mode r) s s' o h = file-Leaves (rel names) r s s' o h
  visit-Leaves names (link mode g r) s s' o h = file-Leaves (rel names) r s s' o h
  visit-Leaves names (special mode e r) s s' o h = file-Leaves (rel names) r s s' o h
  visit-Leaves names (dir mode es) s s' o h = ground (arith, append-nil s.items)
  visit-Leaves names (sealed mode e) s s' o h = ground arith
  visit-Leaves names (broken e) s s' o h = ground arith

  visits :
      Visits
        (zip_split_visit t max_size)
        zip_own
        all_pieces
        (IsBetween t suffix max_size)
        IsZipSound
  visits names node s s' i h =
      let (l, sound) = visit-Leaves names node s s' i.0.opened h in
      (Leaves-Appends t suffix max_size (zip_own names node) s s' i l, sound)

making-got :
    (t : SplitTarget) (q : Parts)
    → labelled (bytes "创建目录路径 " ++ (t.folder ++ bytes " 错误：")) (answer t.making) no_parts
      ≡ (q, got tt)
    → q ≡ no_parts
making-got t q h = ground arith

first-got :
    (t : SplitTarget) (q : Parts)
    → create_zip_part t no_parts ≡ (q, got tt)
    → q ≡ first_part t suffix 0
unfolding create_zip_part create_part
first-got t q h = ground arith

-- If ZipDirAndSplit returns no error, and no Close of a part, whose errors are dropped, has one, then
-- every directory and every file, link and special file of the tree could be read to its end, the pieces of
-- all parts together, in the order of the parts, are the name and the bytes of each of these in the order of
-- the walk, the parts are named by their numbers from 0 without a gap, the size that is kept is that of the
-- open part, every part but the last holds at least the limit, and the last one less, unless the limit is 0.
pub zip_dir_and_split-IsComplete :
    (t : SplitTarget) (tree : Node) (max_size : ℕ) (p : Parts)
    → ClosesAll t
    → zip_dir_and_split t tree max_size ≡ (p, got tt)
    → IsComplete t (bytes ".zip") max_size zip_own IsZipSound tree p
unfolding zip_dir_and_split
zip_dir_and_split-IsComplete t tree max_size p closes h =
    run-IsComplete t suffix max_size
      (labelled (bytes "创建目录路径 " ++ (t.folder ++ bytes " 错误：")) (answer t.making))
      (create_zip_part t) (zip_split_visit t max_size) zip_own IsZipSound tree p (making-got t)
      (first-got t) (visits t max_size closes) closes h
