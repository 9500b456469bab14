-- ===== src/Filex/Extract/RoundTrip.antt =====
-- filex/tar.go: CompressFilesOrFoldsBase, then DecompressTarGz.
use sub_sdk.Base.{◌≡◌, ◌∙◌, ap, sym, Option, none, some, [], ◌∷◌, ◌++◌, append_assoc, append-nil}
use sub_sdk.Go.Text.{Bytes}
use sub_sdk.Go.Path.{base_path, join_path, dir_path}
use sub_sdk.Filex.{
  got, Step, no_open, cut, whole, Node, Entries, file, dir, sealed, link, special, broken, end,
  entry, Names, rel,
}
use sub_sdk.Filex.Items.{Items}
use sub_sdk.Filex.Archive.{ArchiveTarget, tar_name, compress_files_or_folds_base}
use sub_sdk.Filex.Walk.{listing, listing_entries, EachEverywhere}
use sub_sdk.Filex.Archive.Complete.{
  Closes, own_items_base, IsReadable, IsSound, compress_files_or_folds_base_complete,
}
use sub_sdk.Filex.Extract.{
  Op, mkdir, create, fill, Disk, do_op, read_items, untar_entry, untar_entries, decompress_tar_gz,
}

-- The changes that rebuild a tree under a path: each directory with its mode, and each regular file
-- with its bytes after the directory it lies in. Links and special files are not rebuilt.
unfoldable mutual
  pub rebuilt : (Names → Bytes) → Names → Node → Disk
  rebuilt at names (dir mode es) = mkdir (at names) mode ∷ rebuilt_entries at names es
  rebuilt at names (file mode (whole bs)) =
      mkdir (dir_path (at names)) 0o755 ∷ create (at names) ∷ fill (at names) bs ∷ []
  rebuilt at names _ = []

  pub rebuilt_entries : (Names → Bytes) → Names → Entries → Disk
  rebuilt_entries at names end = []
  rebuilt_entries at names (entry name node rest) =
      rebuilt at (names ++ name ∷ []) node ++ rebuilt_entries at names rest

abbrev pub never {ℓ κ} : {A : Type ℓ} {B : Type κ} → A → B → Option Bytes
never a b = none

-- The file system of the extraction takes every change.
abbrev make : Op → Step Disk Unit
make = do_op never

abbrev pub under : Bytes → Bytes → Names → Bytes
under dst base names = join_path dst (tar_name base (rel names))

module _ (dst base : Bytes) where
  pieces_of_node : Names → Node → Items
  pieces_of_node = own_items_base base

  on_disk :
      (more : Items) {d d' : Disk}
      → d ≡ d'
      → untar_entries make dst none (read_items more) d
        ≡ untar_entries make dst none (read_items more) d'
  on_disk more e = ap (λ d. untar_entries make dst none (read_items more) d) e

  -- Extracting the pieces of a tree, with more pieces after them.
  mutual
    unfolding pieces_of_node listing rebuilt read_items untar_entries untar_entry

    untar-listing :
        (names : Names) (node : Node) (more : Items) (disk : Disk)
        → IsReadable node
        → untar_entries make dst none (read_items (listing pieces_of_node names node ++ more)) disk
          ≡ untar_entries make dst none
              (read_items more)
              (disk ++ rebuilt (under dst base) names node)
    untar-listing names (file mode (whole bs)) more disk r = on_disk more (simp append_assoc)
    untar-listing names (file mode (no_open e)) more disk r = absurd r
    untar-listing names (file mode (cut bs e)) more disk r = absurd r
    untar-listing names (dir mode es) more disk r =
        untar-listing_entries names es more (disk ++ mkdir (under dst base names) mode ∷ []) r.1
        ∙ on_disk more (append_assoc disk (mkdir (under dst base names) mode ∷ []) _)
    untar-listing names (sealed mode e) more disk r = absurd r
    untar-listing names (link mode t r') more disk r = on_disk more (sym (append-nil disk))
    untar-listing names (special mode none r') more disk r = on_disk more (sym (append-nil disk))
    untar-listing names (special mode (some e) r') more disk r = absurd r
    untar-listing names (broken e) more disk r = absurd r

    untar-listing_entries :
        (names : Names) (es : Entries) (more : Items) (disk : Disk)
        → EachEverywhere IsSound es
        → untar_entries make dst none
            (read_items (listing_entries pieces_of_node names es ++ more))
            disk
          ≡ untar_entries make dst none
              (read_items more)
              (disk ++ rebuilt_entries (under dst base) names es)
    untar-listing_entries names end more disk r = on_disk more (sym (append-nil disk))
    untar-listing_entries names (entry name node rest) more disk r =
        let inner = names ++ name ∷ [] in
        ap (λ items. untar_entries make dst none (read_items items) disk)
          (append_assoc (listing pieces_of_node inner node) _ more)
        ∙ untar-listing inner node (listing_entries pieces_of_node names rest ++ more) disk r.0
        ∙ untar-listing_entries names rest more (disk ++ rebuilt (under dst base) inner node) r.1
        ∙ on_disk more (append_assoc disk (rebuilt (under dst base) inner node) _)

-- If CompressFilesOrFoldsBase returns no error, and its deferred Close calls, whose errors are dropped,
-- have none, then DecompressTarGz of the archive it wrote, into a
-- file system that takes every change, returns no error and makes exactly these changes: the
-- directories of the tree with their modes and its regular files with their bytes, each under the
-- destination joined with its name in the archive, in the order of the walk.
pub decompress_tar_gz-compress_files_or_folds_base :
    (t : ArchiveTarget) (source dst : Bytes) (tree : Node) (items : Items)
    → Closes t (listing (own_items_base (base_path source)) [] tree)
    → compress_files_or_folds_base t source tree ≡ (items, got tt)
    → decompress_tar_gz never dst
        (record { opening = none; decoding = none; entries = read_items items; ending = none })
        []
      ≡ (rebuilt (under dst (base_path source)) [] tree, got tt)
unfolding pieces_of_node decompress_tar_gz untar_entries read_items
decompress_tar_gz-compress_files_or_folds_base t source dst tree items c h =
    let (e, readable) = compress_files_or_folds_base_complete t source tree items c h in
    let base = base_path source in
    ap (λ i. untar_entries make dst none (read_items i) []) (e ∙ sym (append-nil _))
    ∙ untar-listing dst base [] tree [] [] readable
