-- ===== src/Filex/Archive/Zip.antt =====
-- filex/zip.go ZipDir: the archive holds each file of the tree, or an error is returned.
use sub_sdk.Base.{◌≡◌, Option, [], ◌∷◌, ◌++◌, append_assoc, append-nil, arith}
use sub_sdk.Go.Text.{Bytes, bytes}
use sub_sdk.Filex.{
  got, Read, no_open, cut, whole, Node, file, dir, sealed, link, special, broken, Names, rel,
}
use sub_sdk.Filex.Items.{Item, body, Items, write_to}
use sub_sdk.Filex.Walk.{listing, Everywhere, Visits}
use sub_sdk.Filex.Archive.{ArchiveTarget, zip_header, zip_file, zip_visit, zip_dir}
use sub_sdk.Filex.Archive.Complete.{Closes, prepared_all_got, as_written, Always}

-- A file under a name: a header with no more than the name, and what opening it reads.
abbrev pub zip_items : Bytes → Read → Items
zip_items name (whole bs) = zip_header name ∷ body bs ∷ []
zip_items name r = []

-- A directory has no piece; links and special files are read like files.
abbrev pub zip_own : Names → Node → Items
zip_own names (file mode r) = zip_items (rel names) r
zip_own names (link mode t r) = zip_items (rel names) r
zip_own names (special mode e r) = zip_items (rel names) r
zip_own names _ = []

abbrev pub IsWhole : Read → Type 0
IsWhole (whole bs) = Unit
IsWhole _ = ⊥

abbrev pub IsZipSound : Node → Type 0
IsZipSound (file mode r) = IsWhole r
IsZipSound (dir mode es) = Unit
IsZipSound (sealed mode e) = ⊥
IsZipSound (link mode t r) = IsWhole r
IsZipSound (special mode e r) = IsWhole r
IsZipSound (broken e) = ⊥

module _ (refuses : Items → Item → Option Bytes) where
  zip_file-got :
      (name : Bytes) (r : Read) (s s' : Items)
      → zip_file (write_to refuses) name r s ≡ (s', got tt)
      → (s' ≡ s ++ zip_items name r) × IsWhole r
  unfolding zip_file
  zip_file-got name (whole bs) s s' h =
      ground (arith, append_assoc s (zip_header name ∷ []) (body bs ∷ []))
  zip_file-got name (no_open e) s s' h = ground arith
  zip_file-got name (cut bs e) s s' h = ground arith

  zip_visits : Visits (zip_visit (write_to refuses)) zip_own as_written Always IsZipSound
  unfolding zip_visit
  zip_visits names (file mode r) s s' i h =
      let (e, w) = zip_file-got (rel names) r s s' h in ((e, tt), w)
  zip_visits names (dir mode es) s s' i h = ground (arith, append-nil s)
  zip_visits names (sealed mode e) s s' i h = ground arith
  zip_visits names (link mode t r) s s' i h =
      let (e, w) = zip_file-got (rel names) r s s' h in ((e, tt), w)
  zip_visits names (special mode e r) s s' i h =
      let (e, w) = zip_file-got (rel names) r s s' h in ((e, tt), w)
  zip_visits names (broken e) s s' i h = ground arith

-- If ZipDir returns no error, and its deferred Close calls, whose errors are dropped, have none, then every directory of the tree and every file, link and special file
-- of it could be read to its end, and the archive holds each of these under its path from the root,
-- with its bytes, in the order of the walk.
pub zip_dir_complete :
    (t : ArchiveTarget) (source : Bytes) (tree : Node) (items : Items)
    → Closes t (listing zip_own [] tree)
    → zip_dir t source tree ≡ (items, got tt)
    → (items ≡ listing zip_own [] tree) × Everywhere IsZipSound tree
unfolding zip_dir
zip_dir_complete t source tree items c h =
    prepared_all_got t (bytes "创建文件目录 ") (bytes "创建ZIP文件失败: ") (zip_visit (write_to t.refuses))
      zip_own IsZipSound tree items (zip_visits t.refuses) c h
