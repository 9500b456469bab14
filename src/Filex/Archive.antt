-- ===== src/Filex/Archive.antt =====
-- filex/tar.go CompressFilesOrFolds and CompressFilesOrFoldsBase, filex/zip.go ZipDir and ZipDirBase: an
-- archive of a tree in one file. `source` is the path that is walked and `tree` what lies there.
pub mod Complete
pub mod Zip
mod Examples
use sub_sdk.Base.{
  ℕ, Bool, true, false, Option, none, some, List, [], ◌∷◌, ◌++◌, not, eqb, if◌then◌else◌,
}
use sub_sdk.Go.Text.{Bytes, bytes}
use sub_sdk.Go.Path.{base_path, join_path}
use sub_sdk.Filex.{
  Res, got, failed, Step, pure, fail, ◌>>=◌, ◌>>◌, labelled, Read, Node, Names, rel, walk_error,
  is_dir, is_regular, opened, walk,
}
use sub_sdk.Filex.Items.{
  Header, Item, header, body, Items, write_to, file_info_header, mode_of, open_file, copy, type_reg,
}

-- The archive that is to be made: what IsNotExistMkDir of the folder of its path answers, what os.Create answers,
-- which pieces cannot be written, and what the deferred Close calls answer, which write what is buffered and the
-- end of the archive: `none` if none of them fails, or the pieces that the file then holds.
pub record ArchiveTarget : Type 0 where
  pub path : Bytes
  pub making : Option Bytes
  pub creating : Option Bytes
  pub refuses : Items → Item → Option Bytes
  pub close : Items → Option Items

abbrev pub answer : {S : Type 0} → Option Bytes → Step S Unit
answer none = pure tt
answer (some e) = fail e

-- The part that every archive function begins with.
unfoldable pub prepare : ArchiveTarget → Bytes → Bytes → Step Items Unit
prepare t making_text creating_text = do
  labelled (making_text ++ (t.path ++ bytes " 错误：")) (answer t.making)
  labelled creating_text (answer t.creating)

-- The pieces in a file after Close; its errors are dropped.
abbrev pub kept : Option Items → Items → Items
kept none written = written
kept (some left) written = left

-- A step on an archive that is closed when the function returns, with or without an error.
abbrev pub closing : ArchiveTarget → Step Items Unit → Step Items Unit
closing t m items = let (written, r) = m items in (kept (t.close written) written, r)

-- A zip header has a name only.
unfoldable pub zip_header : Bytes → Item
zip_header name = header (record { name = name; flag = type_reg; linkname = []; mode = 0 })

-- The name under the top folder.
unfoldable pub tar_name : Bytes → Bytes → Bytes
tar_name base path = if eqb path (bytes ".") then base else base ++ (bytes "/" ++ path)

module _ {S : Type 0} (write : Item → Step S Unit) where
  -- `if info.Mode().IsRegular() { … }`
  tar_body : Node → Step S Unit
  tar_body node =
      if is_regular node
      then open_file (opened node) >> copy write (opened node) >> pure tt
      else pure tt

  -- The function that CompressFilesOrFolds walks with.
  pub tar_visit : Names → Node → Step S Unit
  unfolding tar_body
  tar_visit names node = do
    answer (walk_error node)
    h ← file_info_header (rel names) node
    write (header h)
    tar_body node

  -- The function that CompressFilesOrFoldsBase walks with.
  unfoldable pub tar_visit_base : Bytes → Names → Node → Step S Unit
  unfolding tar_body tar_name
  tar_visit_base base names node = do
    answer (walk_error node)
    h ← file_info_header (tar_name base (rel names)) node
    write (header (record h { mode = mode_of node }))
    tar_body node

  -- Create, open and copy for one file of a zip.
  zip_file : Bytes → Read → Step S Unit
  unfolding zip_header
  zip_file name r = do
    labelled (bytes "创建ZIP文件失败: ") (write (zip_header name))
    labelled (bytes "打开文件失败: ") (open_file r)
    labelled (bytes "复制文件内容失败: ") (copy write r)
    pure tt

  -- The function that ZipDir walks with.
  pub zip_visit : Names → Node → Step S Unit
  unfolding zip_file
  zip_visit names node = do
    labelled (bytes "遍历文件夹失败: ") (answer (walk_error node))
    if is_dir node then pure tt else zip_file (rel names) (opened node)

  -- The function that ZipDirBase walks with.
  pub zip_visit_base : Bytes → Names → Node → Step S Unit
  unfolding zip_file
  zip_visit_base base names node = do
    labelled (bytes "遍历文件夹失败: ") (answer (walk_error node))
    if is_dir node then pure tt else zip_file (join_path base (rel names)) (opened node)

-- The pieces of the archive after the function has returned, and what it returns.
module _ (t : ArchiveTarget) (source : Bytes) (tree : Node) where
  unfoldable pub compress_files_or_folds : Items × Res Unit
  unfolding prepare tar_visit walk
  compress_files_or_folds =
      (do prepare t (bytes "创建目录 ") []; closing t (walk (tar_visit (write_to t.refuses)) [] tree))
        []

  unfoldable pub compress_files_or_folds_base : Items × Res Unit
  unfolding prepare tar_visit_base walk base_path
  compress_files_or_folds_base =
      (do
        prepare t (bytes "创建目录 ") []
        closing t (walk (tar_visit_base (write_to t.refuses) (base_path source)) [] tree))
        []

  unfoldable pub zip_dir : Items × Res Unit
  unfolding prepare zip_visit walk
  zip_dir =
      (do
        prepare t (bytes "创建文件目录 ") (bytes "创建ZIP文件失败: ")
        closing t (walk (zip_visit (write_to t.refuses)) [] tree))
        []

  -- The error of the walk is not looked at.
  unfoldable pub zip_dir_base : Items × Res Unit
  unfolding prepare zip_visit_base walk base_path
  zip_dir_base =
      (do
        prepare t (bytes "创建文件目录 ") (bytes "创建ZIP文件失败: ")
        closing t (λ items. (
          (walk (zip_visit_base (write_to t.refuses) (base_path source)) [] tree items).0,
          got tt,
        )))
        []
