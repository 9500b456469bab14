-- ===== src/Filex/Split/Tar.antt =====
-- filex/tar.go CompressAndSplitFiles: what one visit does to the parts, and the whole run.
use sub_sdk.Base.{ℕ, ◌≡◌, refl, true, false, none, some, [], ◌∷◌, ◌++◌, append_assoc, arith}
use sub_sdk.Go.Text.{Bytes, bytes}
use sub_sdk.Filex.{
  got, Step, ◌>>◌, no_open, cut, whole, Node, file, dir, sealed, link, special, broken, Names, rel,
  is_regular, labelled,
}
use sub_sdk.Filex.Items.{header, body, header_mode}
use sub_sdk.Filex.Walk.{Visits}
use sub_sdk.Filex.Archive.{answer}
use sub_sdk.Filex.Archive.Complete.{own_items, header_named, IsSound}
use sub_sdk.Filex.Split.{
  Parts, SplitTarget, create_part, reset_size, next_number, when_full, no_parts, split_visit,
  split_body, compress_and_split_files, capped,
}
use sub_sdk.Filex.Split.Invariant.{
  total, all_pieces, IsBetween, Leaves, Leaves-Appends, when_full-Leaves, next_part, ClosesAll,
  with_items, first_part, IsComplete, run-IsComplete,
}

abbrev suffix : Bytes
suffix = bytes ".tar.gz"

module _ (t : SplitTarget) (source : Bytes) (max_size : ℕ) (closes : ClosesAll t) where
  next : Step Parts Unit
  next = next_number >> create_part t suffix >> reset_size

  next-got :
      (p s' : Parts) → p.is_open ≡ true → next p ≡ (s', got tt) → s' ≡ next_part t suffix max_size p
  unfolding next create_part
  next-got p s' o h = ground (arith, closes p.file_name p.items)

  -- The node is written and counted, and then the size is looked at.
  file_written :
      (names : Names) (mode : ℕ) (bs : Bytes) (s s' : Parts)
      → split_visit t source max_size names (file mode (whole bs)) s ≡ (s', got tt)
      → when_full max_size next
          (with_items t suffix max_size (own_items names (file mode (whole bs))) s)
        ≡ (s', got tt)
  unfolding split_visit split_body total next
  file_written names mode bs s s' h = ground (
    arith,
    append_assoc s.items
        (header (header_named (rel names) (file mode (whole bs)) (header_mode mode)) ∷ [])
        (body bs ∷ []),
  )

  file-Leaves :
      (names : Names) (mode : ℕ) (bs : Bytes) (s s' : Parts)
      → s.is_open ≡ true
      → split_visit t source max_size names (file mode (whole bs)) s ≡ (s', got tt)
      → Leaves t suffix max_size (own_items names (file mode (whole bs))) s s'
  file-Leaves names mode bs s s' o h =
      when_full-Leaves t suffix max_size next (own_items names (file mode (whole bs))) s s' next-got
        o (file_written names mode bs s s' h)

  -- A node without content of its own: only a header is written.
  header_written :
      (names : Names) (node : Node) (s s' : Parts)
      → s.is_open ≡ true
      → is_regular node ≡ false
      → split_visit t source max_size names node s ≡ (s', got tt)
      → Leaves t suffix max_size (own_items names node) s s' × IsSound node
  unfolding split_visit total
  header_written names (file mode r) s s' o n h = absurd (ground arith)
  header_written names (dir mode es) s s' o n h = ground arith
  header_written names (sealed mode e) s s' o n h = ground arith
  header_written names (link mode g r) s s' o n h = ground arith
  header_written names (special mode none r) s s' o n h = ground arith
  header_written names (special mode (some e) r) s s' o n h = ground arith
  header_written names (broken e) s s' o n h = ground arith

  visit-Leaves :
      (names : Names) (node : Node) (s s' : Parts)
      → s.is_open ≡ true
      → split_visit t source max_size names node s ≡ (s', got tt)
      → Leaves t suffix max_size (own_items names node) s s' × IsSound node
  unfolding split_visit split_body
  visit-Leaves names (file mode (whole bs)) s s' o h = (file-Leaves names mode bs s s' o h, tt)
  visit-Leaves names (file mode (no_open e)) s s' o h = ground arith
  visit-Leaves names (file mode (cut bs e)) s s' o h = ground arith
  visit-Leaves names (dir mode es) s s' o h = header_written names (dir mode es) s s' o refl h
  visit-Leaves names (sealed mode e) s s' o h = header_written names (sealed mode e) s s' o refl h
  visit-Leaves names (link mode g r) s s' o h = header_written names (link mode g r) s s' o refl h
  visit-Leaves names (special mode e r) s s' o h =
      header_written names (special mode e r) s s' o refl h
  visit-Leaves names (broken e) s s' o h = header_written names (broken e) s s' o refl h

  visits :
      Visits
        (split_visit t source max_size)
        own_items
        all_pieces
        (IsBetween t suffix max_size)
        IsSound
  visits names node s s' i h =
      let (l, sound) = visit-Leaves names node s s' i.0.opened h in
      (Leaves-Appends t suffix max_size (own_items names node) s s' i l, sound)

making-got :
    (t : SplitTarget) (q : Parts)
    → labelled (bytes "创建目录 " ++ (t.folder ++ bytes " 错误：")) (answer t.making) no_parts
      ≡ (q, got tt)
    → q ≡ no_parts
making-got t q h = ground arith

first-got :
    (t : SplitTarget) (q : Parts)
    → create_part t suffix no_parts ≡ (q, got tt)
    → q ≡ first_part t suffix 0
unfolding create_part
first-got t q h = ground arith

-- If CompressAndSplitFiles returns no error, and no Close of a part, whose errors are dropped, has one,
-- then every directory and every regular file of the tree could be read, the pieces of all parts together,
-- in the order of the parts, are a header for each node in the order of the walk and after that of a regular
-- file all its bytes, the parts are named by their numbers from 0 without a gap, the size that is kept is
-- that of the open part, every part but the last holds at least the limit, which is at most 10 GiB, and the
-- last one less, unless the limit is 0.
pub compress_and_split_files-IsComplete :
    (t : SplitTarget) (source : Bytes) (tree : Node) (max_size : ℕ) (p : Parts)
    → ClosesAll t
    → compress_and_split_files t source tree max_size ≡ (p, got tt)
    → IsComplete t (bytes ".tar.gz") (capped max_size) own_items IsSound tree p
unfolding compress_and_split_files
compress_and_split_files-IsComplete t source tree max_size p closes h =
    run-IsComplete t suffix (capped max_size)
      (labelled (bytes "创建目录 " ++ (t.folder ++ bytes " 错误：")) (answer t.making))
      (create_part t suffix) (split_visit t source (capped max_size)) own_items IsSound tree p
      (making-got t) (first-got t) (visits t source (capped max_size) closes) closes h
