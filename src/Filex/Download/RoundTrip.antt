-- ===== src/Filex/Download/RoundTrip.antt =====
-- filex/zstd-upload.go: CompressAndUploadSelf of a directory, then DownloadAndDecompress.
use mathlib.Core.Path.{subst}
use sub_sdk.Base.{
  Option, ℕ, ℤ, ◌≡◌, ◌∙◌, refl, sym, ap, true, none, some, List, [], ◌∷◌, ◌++◌, All, All-append,
  append_assoc, append-nil,
}
use sub_sdk.Go.Text.{Bytes, bytes}
use sub_sdk.Go.Split.{join}
use sub_sdk.Go.Index.{has_prefix, has_prefix-append}
use sub_sdk.Go.Path.{clean, join_path, dir_path, slash, print_path}
use sub_sdk.Go.Path.Proper.{IsProper, clean-print_path, join_path-print_path, join-append}
use sub_sdk.Filex.{
  got, failed, Step, pure, ◌>>◌, Read, no_open, cut, whole, Node, Entries, file, dir, sealed, link,
  special, broken, end, entry, Names, rel,
}
use sub_sdk.Filex.Items.{Header, Items, header_mode, flag_of}
use sub_sdk.Filex.Walk.{after, listing, listing_entries, Everywhere, EachEverywhere}
use sub_sdk.Filex.Extract.{Op, mkdir, create, fill, symlink, Disk, do_op, read_items, content}
use sub_sdk.Filex.Extract.RoundTrip.{never}
use sub_sdk.Filex.Upload.{Upload, tar_stream, produce}
use sub_sdk.Filex.Upload.Complete.{upload_items, upload_header, IsPacked, produce_complete}
use sub_sdk.Filex.Download.{
  after_next, is_inside, place, place_entry, place_entries, place_archive, place_stream, reread,
  download_and_decompress,
}

-- The path of a name below the root of a tree.
abbrev pub path_in : Bytes → Names → Bytes
path_in dst names = join_path dst (rel names)

-- The changes that rebuild what lies below the root, links included; a special file is left out.
unfoldable mutual
  pub placed : Bytes → Names → Node → Disk
  placed dst names (dir mode es) =
      mkdir (path_in dst names) (header_mode mode) ∷ placed_entries dst names es
  placed dst names (file mode (whole bs)) =
      mkdir (dir_path (path_in dst names)) 0o755
      ∷ create (path_in dst names)
      ∷ fill (path_in dst names) bs
      ∷ []
  placed dst names (link mode (got t) r) =
      mkdir (dir_path (path_in dst names)) 0o755 ∷ symlink t (path_in dst names) ∷ []
  placed dst names _ = []

  pub placed_entries : Bytes → Names → Entries → Disk
  placed_entries dst names end = []
  placed_entries dst names (entry name node rest) =
      placed dst (names ++ name ∷ []) node ++ placed_entries dst names rest

-- Every name in a tree is one of a file: no slash in it, and neither empty nor "." nor "..".
abbrev mutual
  pub AreNamed : Entries → Type 0
  AreNamed end = Unit
  AreNamed (entry name node rest) = IsProper name × IsNamed node × AreNamed rest

  pub IsNamed : Node → Type 0
  IsNamed (dir mode es) = AreNamed es
  IsNamed _ = Unit

abbrev make : Op → Step Disk Unit
make = do_op never

-- The destination: a path of proper names from the root, and not the root.
module _ (d : Bytes) (ds : List Bytes) (proper : All IsProper (d ∷ ds)) where
  abbrev dst : Bytes
  dst = print_path true (d ∷ ds)

  path_in-is_inside :
      (n : Bytes) (names : Names)
      → All IsProper (n ∷ names)
      → is_inside dst (path_in dst (n ∷ names)) ≡ true
  unfolding is_inside rel print_path
  path_in-is_inside n names ps =
      let whole_path = print_path true ((d ∷ ds) ++ n ∷ names) in
      let below = join (slash ∷ []) (n ∷ names) in
      let joined : path_in dst (n ∷ names) ≡ whole_path =
        join_path-print_path d ds n names proper ps in
      let cleaned : clean whole_path ≡ whole_path =
        clean-print_path d (ds ++ n ∷ names) (All-append IsProper (d ∷ ds) (n ∷ names) proper ps) in
      let parted : whole_path ≡ ((dst ++ bytes "/") ++ below) =
        ap (λ s. slash ∷ s) (join-append (slash ∷ []) d ds n names)
        ∙ sym (append_assoc dst (bytes "/") below) in
      ap (λ c. has_prefix (c ++ bytes "/") (clean (path_in dst (n ∷ names))))
        (clean-print_path d ds proper)
      ∙ ap (λ p. has_prefix (dst ++ bytes "/") p) (ap clean joined ∙ cleaned ∙ parted)
      ∙ has_prefix-append (dst ++ bytes "/") below

  child-is_inside :
      (names : Names) (name : Bytes)
      → All IsProper names
      → IsProper name
      → is_inside dst (path_in dst (names ++ name ∷ [])) ≡ true
  child-is_inside [] name ps p = path_in-is_inside name [] (p, tt)
  child-is_inside (n ∷ names) name ps p =
      path_in-is_inside n (names ++ name ∷ [])
        (All-append IsProper (n ∷ names) (name ∷ []) ps (p, tt))

  pieces_of_node : Names → Node → Items
  pieces_of_node = upload_items rel

  on_disk :
      (more : Items) {a b : Disk}
      → a ≡ b
      → place_entries make dst none (read_items more) a
        ≡ place_entries make dst none (read_items more) b
  on_disk more e = ap (λ disk. place_entries make dst none (read_items more) disk) e

  -- An entry that is placed, with more entries after it.
  place_one :
      (h : Header) (r : Read) (entries : List (Header × Read)) (a b : Disk)
      → place_entry make dst h r a ≡ (b, got tt)
      → place_entries make dst none ((h, r) ∷ entries) a ≡ place_entries make dst none entries b
  unfolding place_entries
  place_one h r entries a b e = ap (after (λ _. place_entries make dst none entries)) e

  -- An entry below the root is not refused.
  place_entry-inside :
      (names : Names) (node : Node) (r : Read) (disk : Disk)
      → is_inside dst (path_in dst names) ≡ true
      → place_entry make dst (upload_header rel names node) r disk
        ≡ place make dst (flag_of node) (path_in dst names) (upload_header rel names node) r disk
  unfolding place_entry
  place_entry-inside names node r disk i = rw i refl

  mutual
    unfolding pieces_of_node listing placed read_items place_entries place

    place-listing :
        (names : Names) (node : Node) (more : Items) (disk : Disk)
        → is_inside dst (path_in dst names) ≡ true
        → All IsProper names × IsNamed node
        → Everywhere IsPacked node
        → place_entries make dst none (read_items (listing pieces_of_node names node ++ more)) disk
          ≡ place_entries make dst none (read_items more) (disk ++ placed dst names node)
    place-listing names (file mode (whole bs)) more disk i q p =
        place_one (upload_header rel names (file mode (whole bs))) (whole bs) (read_items more) disk
          (disk ++ placed dst names (file mode (whole bs)))
          (place_entry-inside names (file mode (whole bs)) (whole bs) disk i
            ∙ ap (λ a. (a, got tt)) (simp append_assoc))
    place-listing names (file mode (no_open e)) more disk i q p = absurd p
    place-listing names (file mode (cut bs e)) more disk i q p = absurd p
    place-listing names (dir mode es) more disk i q p =
        let made = disk ++ mkdir (path_in dst names) (header_mode mode) ∷ [] in
        let read = content (listing_entries pieces_of_node names es ++ more) in
        place_one (upload_header rel names (dir mode es)) read
          (read_items (listing_entries pieces_of_node names es ++ more)) disk made
          (place_entry-inside names (dir mode es) read disk i)
        ∙ place-listing_entries names es more made q.0 q.1 p.1
        ∙ on_disk more (append_assoc disk (mkdir (path_in dst names) (header_mode mode) ∷ []) _)
    place-listing names (sealed mode e) more disk i q p = absurd p
    place-listing names (link mode (got t) r) more disk i q p =
        place_one (upload_header rel names (link mode (got t) r)) (content more) (read_items more)
          disk (disk ++ placed dst names (link mode (got t) r))
          (place_entry-inside names (link mode (got t) r) (content more) disk i
            ∙ ap (λ a. (a, got tt)) (simp append_assoc))
    place-listing names (link mode (failed e) r) more disk i q p = absurd p
    place-listing names (special mode none (whole bs)) more disk i q p =
        place_one (upload_header rel names (special mode none (whole bs))) (whole bs)
          (read_items more) disk (disk ++ [])
          (place_entry-inside names (special mode none (whole bs)) (whole bs) disk i
            ∙ ap (λ a. (a, got tt)) (sym (append-nil disk)))
    place-listing names (special mode none (no_open e)) more disk i q p = absurd p
    place-listing names (special mode none (cut bs e)) more disk i q p = absurd p
    place-listing names (special mode (some e) r) more disk i q p = absurd p
    place-listing names (broken e) more disk i q p = absurd p

    place-listing_entries :
        (names : Names) (es : Entries) (more : Items) (disk : Disk)
        → All IsProper names
        → AreNamed es
        → EachEverywhere IsPacked es
        → place_entries make dst none
            (read_items (listing_entries pieces_of_node names es ++ more))
            disk
          ≡ place_entries make dst none (read_items more) (disk ++ placed_entries dst names es)
    place-listing_entries names end more disk ps q p = on_disk more (sym (append-nil disk))
    place-listing_entries names (entry name node rest) more disk ps (proper_name, named, others) p =
        let inner = names ++ name ∷ [] in
        let inner_proper = All-append IsProper names (name ∷ []) ps (proper_name, tt) in
        ap (λ items. place_entries make dst none (read_items items) disk)
          (append_assoc (listing pieces_of_node inner node) _ more)
        ∙ place-listing inner node (listing_entries pieces_of_node names rest ++ more) disk
            (child-is_inside names name ps proper_name) (inner_proper, named) p.0
        ∙ place-listing_entries names rest more (disk ++ placed dst inner node) ps others p.1
        ∙ on_disk more (append_assoc disk (placed dst inner node) _)

  -- The pieces below the root start with a header.
  reread-listing :
      (names : Names) (node : Node) (more : Items)
      → reread (listing pieces_of_node names node ++ more)
        ≡ (read_items (listing pieces_of_node names node ++ more), none)
  unfolding pieces_of_node listing reread read_items
  reread-listing names (file mode r) more = refl
  reread-listing names (dir mode es) more = refl
  reread-listing names (sealed mode e) more = refl
  reread-listing names (link mode t r) more = refl
  reread-listing names (special mode e r) more = refl
  reread-listing names (broken e) more = refl

  reread-listing_entries :
      (es : Entries)
      → reread (listing_entries pieces_of_node [] es ++ [])
        ≡ (read_items (listing_entries pieces_of_node [] es ++ []), none)
  unfolding listing reread read_items
  reread-listing_entries end = refl
  reread-listing_entries (entry name node rest) =
      let below = listing pieces_of_node (name ∷ []) node in
      let e = append_assoc below (listing_entries pieces_of_node [] rest) [] in
      ap reread e
      ∙ reread-listing (name ∷ []) node (listing_entries pieces_of_node [] rest ++ [])
      ∙ ap (λ items. (read_items items, none)) (sym e)

  -- Downloading what is left of a directory's pieces after the header of its root.
  download-listing :
      (mode : ℕ) (es : Entries)
      → AreNamed es
      → EachEverywhere IsPacked es
      → place_archive make dst none (listing_entries pieces_of_node [] es) []
        ≡ (mkdir dst 0o755 ∷ placed_entries dst [] es, got tt)
  unfolding place_archive place_entries read_items
  download-listing mode es q p =
      let items = listing_entries pieces_of_node [] es in
      let made = mkdir dst 0o755 ∷ [] in
      ap (λ x. place_archive make dst none x []) (sym (append-nil items))
      ∙ ap (λ x. place_entries make dst x.1 x.0 made) (reread-listing_entries es)
      ∙ place-listing_entries [] es [] made tt q p

-- Take a directory that CompressAndUploadSelf packs into the pipe without an error, whose names are
-- proper names of files, and a destination of proper names from the root that is not the root. Then
-- DownloadAndDecompress of the stream into a file system that takes every change refuses no entry and
-- returns the destination, and it makes exactly: the destination, and below it each directory, each
-- regular file with all its bytes and each symbolic link with its target, in the order of the walk.
pub download_and_decompress-produce :
    (u : Upload) (levels : List ℤ) (mode : ℕ) (es : Entries) (items : Items) (d : Bytes)
    (ds : List Bytes) (as_tar : Bytes → Option (Header × Items))
    → u.tree ≡ dir mode es
    → produce rel u levels ≡ (tar_stream items, none)
    → AreNamed es
    → All IsProper (d ∷ ds)
    → let dst = print_path true (d ∷ ds) in
      download_and_decompress never
        (record {
          getting = none;
          decoding = none;
          stream = tar_stream items;
          reading = none;
          as_tar = as_tar;
        })
        dst
        []
      ≡ (mkdir dst 0o755 ∷ placed_entries dst [] es, got dst)
unfolding download_and_decompress place_stream after_next listing pieces_of_node
download_and_decompress-produce u levels mode es items d ds as_tar t h named proper =
    let (e, packed) = produce_complete rel u levels items h in
    let dst = print_path true (d ∷ ds) in
    let pieces : items ≡ listing (upload_items rel) [] (dir mode es) =
      e ∙ ap (λ n. listing (upload_items rel) [] n) t in
    let sound : Everywhere IsPacked (dir mode es) = subst (λ n. Everywhere IsPacked n) t packed in
    ap (λ i. (place_stream make dst none (after_next as_tar (tar_stream i)) >> pure dst) []) pieces
    ∙ ap (after (λ _. pure dst)) (download-listing d ds proper mode es named sound.1)
