-- ===== src/Filex/Split.antt =====
-- filex/tar.go CompressAndSplitFiles and createNewSplitFile, filex/zip.go ZipDirAndSplit: an archive in parts. A
-- maxSize below 0 acts as 0, since every size has then reached it.
pub mod FileNames
pub mod Invariant
pub mod Tar
pub mod Zip
mod Examples
use sub_sdk.Base.{
  ℕ, ◌+◌, ◌*◌, Bool, true, false, Option, none, some, List, [], ◌∷◌, ◌++◌, if◌then◌else◌, leb, ltb,
}
use sub_sdk.Go.Text.{Bytes, bytes}
use sub_sdk.Go.Split.{join}
use sub_sdk.Go.Number.{show}
use sub_sdk.Go.Path.{join_path}
use sub_sdk.Filex.{
  Res, got, failed, Step, pure, fail, ◌>>=◌, ◌>>◌, labelled, Read, Node, Names, rel, walk_error,
  is_dir, is_regular, opened, walk,
}
use sub_sdk.Filex.Items.{Header, Item, header, Items, file_info_header, open_file, copy}
use sub_sdk.Filex.Archive.{answer, kept, zip_header}

-- The variables of the two functions: the parts that are closed with their file names, whether a part is
-- open, its file name and its pieces, the bytes copied into it, and the number of the part.
pub record Parts : Type 0 where
  pub closed : List (Bytes × Items)
  pub is_open : Bool
  pub file_name : Bytes
  pub items : Items
  pub current_size : ℕ
  pub part_number : ℕ

-- The folder and the prefix of the parts, what making the folder answers, which part cannot be created,
-- which pieces cannot be written into a part, and what its Close calls answer: `none` if none of them
-- fails, or the pieces that the file of the part then holds.
pub record SplitTarget : Type 0 where
  pub folder : Bytes
  pub prefix : Bytes
  pub making : Option Bytes
  pub creating : Bytes → Option Bytes
  pub refuses : Items → Item → Option Bytes
  pub close : Bytes → Items → Option Items

-- No part yet: the two functions start here.
abbrev pub no_parts : Parts
no_parts = record {
  closed = [];
  is_open = false;
  file_name = [];
  items = [];
  current_size = 0;
  part_number = 0;
}

abbrev pub default_max_size : ℕ
default_max_size = 10 * 1024 * 1024 * 1024

-- if maxSize > defaultMaxSize { maxSize = defaultMaxSize }
unfoldable pub capped : ℕ → ℕ
capped max_size = if ltb default_max_size max_size then default_max_size else max_size

-- prefix.tar.gz, prefix_1.tar.gz, …
unfoldable pub part_name : Bytes → Bytes → ℕ → Bytes
part_name prefix suffix number =
    if ltb 0 number then prefix ++ (bytes "_" ++ (show number ++ suffix)) else prefix ++ suffix

abbrev pub add_size : ℕ → Step Parts Unit
add_size n p = (record p { current_size = p.current_size + n }, got tt)

abbrev pub reset_size : Step Parts Unit
reset_size p = (record p { current_size = 0 }, got tt)

abbrev pub next_number : Step Parts Unit
next_number p = (record p { part_number = p.part_number + 1 }, got tt)

-- if currentSize >= maxSize { … }
abbrev pub when_full : ℕ → Step Parts Unit → Step Parts Unit
when_full max_size next p = if leb max_size p.current_size then next p else (p, got tt)

-- The path that the walk hands over with a file.
abbrev pub walked : Bytes → Names → Bytes
walked source [] = source
walked source (name ∷ names) = join_path source (join (bytes "/") (name ∷ names))

module _ (t : SplitTarget) where
  -- tw.WriteHeader, zw.CreateHeader and the writes of io.Copy go to the current part.
  abbrev pub write_part : Item → Step Parts Unit
  write_part item p = elim (t.refuses p.items item) [
    | some e ↦ (p, failed e)
    | none ↦ (record p { items = p.items ++ item ∷ [] }, got tt)
  ]

  -- The pieces in the file of the open part after Close; its errors are dropped.
  abbrev pub kept_part : Parts → Items
  kept_part p = kept (t.close p.file_name p.items) p.items

  -- The open part, if there is one, is closed, and the next one is empty. If that cannot be created, the
  -- walk ends, and the open part was the last one.
  unfoldable pub create_part : Bytes → Step Parts Unit
  unfolding part_name
  create_part suffix p =
      let path = join_path t.folder (part_name t.prefix suffix p.part_number) in
      elim (t.creating path) [
        | some e ↦ (p, failed e)
        | none ↦ (
          record p {
            closed = if p.is_open then p.closed ++ (p.file_name, kept_part p) ∷ [] else p.closed;
            is_open = true;
            file_name = path;
            items = [];
          },
          got tt,
        )
      ]

  -- The content of a file of CompressAndSplitFiles.
  split_body : Bytes → ℕ → Node → Step Parts Unit
  unfolding create_part
  split_body path max_size node = do
    open_file (opened node)
    n ← labelled (bytes "压缩失败: [" ++ (path ++ bytes "], 错误: ")) (copy write_part (opened node))
    add_size n
    when_full max_size (next_number >> create_part (bytes ".tar.gz") >> reset_size)

  -- The function that CompressAndSplitFiles walks with.
  split_visit : Bytes → ℕ → Names → Node → Step Parts Unit
  unfolding split_body
  split_visit source max_size names node = do
    answer (walk_error node)
    h ← file_info_header (rel names) node
    write_part (header h)
    if is_regular node then split_body (walked source names) max_size node else pure tt

  -- createNewZipWriter of ZipDirAndSplit
  create_zip_part : Step Parts Unit
  unfolding create_part
  create_zip_part = reset_size >> labelled (bytes "创建分割ZIP文件失败: ") (create_part (bytes ".zip"))

  zip_split_file : ℕ → Bytes → Read → Step Parts Unit
  unfolding create_zip_part zip_header
  zip_split_file max_size name r = do
    labelled (bytes "创建ZIP文件失败: ") (write_part (zip_header name))
    labelled (bytes "打开文件失败: ") (open_file r)
    n ← labelled (bytes "复制文件内容失败: ") (copy write_part r)
    add_size n
    when_full max_size (next_number >> create_zip_part)

  -- The function that ZipDirAndSplit walks with.
  zip_split_visit : ℕ → Names → Node → Step Parts Unit
  unfolding zip_split_file
  zip_split_visit max_size names node = do
    labelled (bytes "遍历文件夹失败: ") (answer (walk_error node))
    if is_dir node then pure tt else zip_split_file max_size (rel names) (opened node)

  -- The deferred function: the open part is closed.
  abbrev pub closing_part : Step Parts Unit → Step Parts Unit
  closing_part m p = let (q, r) = m p in (record q { items = kept_part q }, r)

  -- The parts after the function has returned, and what it returns.
  unfoldable pub compress_and_split_files : Bytes → Node → ℕ → Parts × Res Unit
  unfolding split_visit walk create_part capped
  compress_and_split_files source tree max_size =
      (do
        labelled (bytes "创建目录 " ++ (t.folder ++ bytes " 错误：")) (answer t.making)
        create_part (bytes ".tar.gz")
        closing_part (walk (split_visit source (capped max_size)) [] tree))
        no_parts

  unfoldable pub zip_dir_and_split : Node → ℕ → Parts × Res Unit
  unfolding zip_split_visit walk create_zip_part
  zip_dir_and_split tree max_size =
      (do
        labelled (bytes "创建目录路径 " ++ (t.folder ++ bytes " 错误：")) (answer t.making)
        create_zip_part
        closing_part (walk (zip_split_visit max_size) [] tree))
        no_parts
