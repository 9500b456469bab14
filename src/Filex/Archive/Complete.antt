-- ===== src/Filex/Archive/Complete.antt =====
-- filex/tar.go: the archive holds all of the tree, or an error is returned.
use sub_sdk.Base.{ℕ, ◌≡◌, ◌∙◌, ap, sym, Option, none, some, [], ◌∷◌, ◌++◌, append_assoc, arith}
use sub_sdk.Go.Text.{Bytes, bytes}
use sub_sdk.Go.Path.{base_path}
use sub_sdk.Filex.{
  got, Step, ◌>>=◌, no_open, cut, whole, Node, file, dir, sealed, link, special, broken, Names, rel,
  walk,
}
use sub_sdk.Filex.Items.{Header, Item, header, body, Items, write_to, mode_of, header_mode, flag_of}
use sub_sdk.Filex.Walk.{listing, Everywhere, Visits, walk-got, >>=-eq-got}
use sub_sdk.Filex.Archive.{
  ArchiveTarget, closing, kept, tar_body, tar_name, tar_visit, tar_visit_base, prepare,
  compress_files_or_folds, compress_files_or_folds_base,
}

-- What a node's own pieces are: a header, and the content of a regular file.
abbrev pub own_body : Node → Items
own_body (file mode (whole bs)) = body bs ∷ []
own_body _ = []

abbrev pub header_named : Bytes → Node → ℕ → Header
header_named name node mode = record {
  name = name;
  flag = flag_of node;
  linkname = [];
  mode = mode;
}

-- With names from the path walked, and the modes of tar.FileInfoHeader.
abbrev pub own_items : Names → Node → Items
own_items names node =
    header (header_named (rel names) node (header_mode (mode_of node))) ∷ own_body node

-- With names under a top folder, and the modes of the file system.
abbrev pub own_items_base : Bytes → Names → Node → Items
own_items_base base names node =
    header (header_named (tar_name base (rel names)) node (mode_of node)) ∷ own_body node

-- The node itself can be read into an archive.
abbrev pub IsSound : Node → Type 0
IsSound (file mode (whole bs)) = Unit
IsSound (file mode r) = ⊥
IsSound (dir mode es) = Unit
IsSound (sealed mode e) = ⊥
IsSound (link mode t r) = Unit
IsSound (special mode none r) = Unit
IsSound (special mode (some e) r) = ⊥
IsSound (broken e) = ⊥

-- All of the tree can be read.
abbrev pub IsReadable : Node → Type 0
IsReadable = Everywhere IsSound

abbrev pub Always {ℓ} : {S : Type ℓ} → S → Type 0
Always s = Unit

abbrev pub as_written : Items → Items
as_written items = items

module _ (refuses : Items → Item → Option Bytes) where
  tar_visits : Visits (tar_visit (write_to refuses)) own_items as_written Always IsSound
  unfolding tar_visit tar_body
  tar_visits names (file mode (whole bs)) s s' i h =
      let h0 = header (header_named (rel names) (file mode (whole bs)) (header_mode mode)) in
      ground (arith, append_assoc s (h0 ∷ []) (body bs ∷ []))
  tar_visits names (file mode (no_open e)) s s' i h = ground arith
  tar_visits names (file mode (cut bs e)) s s' i h = ground arith
  tar_visits names (dir mode es) s s' i h = ground arith
  tar_visits names (sealed mode e) s s' i h = ground arith
  tar_visits names (link mode t r) s s' i h = ground arith
  tar_visits names (special mode (some e) r) s s' i h = ground arith
  tar_visits names (special mode none r) s s' i h = ground arith
  tar_visits names (broken e) s s' i h = ground arith

  tar_visits_base :
      (base : Bytes)
      → Visits
          (tar_visit_base (write_to refuses) base)
          (own_items_base base)
          as_written
          Always
          IsSound
  unfolding tar_visit_base tar_body tar_name
  tar_visits_base base names (file mode (whole bs)) s s' i h =
      let h0 = header (header_named (tar_name base (rel names)) (file mode (whole bs)) mode) in
      ground (arith, append_assoc s (h0 ∷ []) (body bs ∷ []))
  tar_visits_base base names (file mode (no_open e)) s s' i h = ground arith
  tar_visits_base base names (file mode (cut bs e)) s s' i h = ground arith
  tar_visits_base base names (dir mode es) s s' i h = ground arith
  tar_visits_base base names (sealed mode e) s s' i h = ground arith
  tar_visits_base base names (link mode t r) s s' i h = ground arith
  tar_visits_base base names (special mode (some e) r) s s' i h = ground arith
  tar_visits_base base names (special mode none r) s s' i h = ground arith
  tar_visits_base base names (broken e) s s' i h = ground arith

prepare-got :
    (t : ArchiveTarget) (a b : Bytes) (items mid : Items)
    → prepare t a b items ≡ (mid, got tt)
    → mid ≡ items
unfolding prepare
prepare-got t a b items mid h = ground arith

-- A step that ends without an error, and then Close without one.
closing-got :
    (t : ArchiveTarget) (m : Step Items Unit) (mid items : Items)
    → closing t m mid ≡ (items, got tt)
    → (m mid ≡ ((m mid).0, got tt)) × (items ≡ kept (t.close (m mid).0) (m mid).0)
closing-got t m mid items h = (ap (λ r. ((m mid).0, r.1)) h, sym (ap (λ r. r.0) h))

-- Close has no error on these pieces.
abbrev pub Closes : ArchiveTarget → Items → Type 0
Closes t items = t.close items ≡ none

-- A preparation and a walk, from an empty archive, and Close.
pub prepared_all_got :
    (t : ArchiveTarget) (a b : Bytes) (visit : Names → Node → Step Items Unit)
    (own : Names → Node → Items) (Good : Node → Type 0) (tree : Node) (items : Items)
    → Visits visit own as_written Always Good
    → Closes t (listing own [] tree)
    → (prepare t a b >>= λ _. closing t (walk visit [] tree)) [] ≡ (items, got tt)
    → (items ≡ listing own [] tree) × Everywhere Good tree
prepared_all_got t a b visit own Good tree items visits c h =
    let m = walk visit [] tree in
    let (mid, h1, h2) = >>=-eq-got (prepare t a b) (λ _. closing t m) [] items h in
    let (h3, e') = closing-got t m mid items h2 in
    let (e, good) = walk-got visit own as_written Always Good visits [] tree mid (m mid).0 tt h3 in
    let all = e.0 ∙ ap (λ l. l ++ listing own [] tree) (prepare-got t a b [] mid h1) in
    (e' ∙ (ap (λ l. kept (t.close l) l) all ∙ ap (λ o. kept o (listing own [] tree)) c), good)

pub compress_files_or_folds_complete :
    (t : ArchiveTarget) (source : Bytes) (tree : Node) (items : Items)
    → Closes t (listing own_items [] tree)
    → compress_files_or_folds t source tree ≡ (items, got tt)
    → (items ≡ listing own_items [] tree) × IsReadable tree
unfolding compress_files_or_folds
compress_files_or_folds_complete t source tree items c h =
    prepared_all_got t (bytes "创建目录 ") [] (tar_visit (write_to t.refuses)) own_items IsSound tree
      items (tar_visits t.refuses) c h

-- If CompressFilesOrFoldsBase returns no error, and its deferred Close calls, whose errors are dropped, have none, then every directory of the tree and every regular
-- file of it could be read, and the archive holds exactly the tree under its top folder: a header for
-- each node, each directory before what it holds, and after the header of a regular file all its bytes.
pub compress_files_or_folds_base_complete :
    (t : ArchiveTarget) (source : Bytes) (tree : Node) (items : Items)
    → Closes t (listing (own_items_base (base_path source)) [] tree)
    → compress_files_or_folds_base t source tree ≡ (items, got tt)
    → (items ≡ listing (own_items_base (base_path source)) [] tree) × IsReadable tree
unfolding compress_files_or_folds_base
compress_files_or_folds_base_complete t source tree items c h =
    prepared_all_got t (bytes "创建目录 ") [] (tar_visit_base (write_to t.refuses) (base_path source))
      (own_items_base (base_path source)) IsSound tree items
      (tar_visits_base t.refuses (base_path source)) c h
