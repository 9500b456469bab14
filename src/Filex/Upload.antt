-- ===== src/Filex/Upload.antt =====
-- filex/zstd-upload.go CompressAndUpload and CompressAndUploadSelf: what the goroutine writes into the pipe through
-- the zstd encoder, and what PutObject makes of it. Compression keeps the bytes, so the stream is what is encoded.
pub mod Complete
mod Examples
use sub_sdk.Base.{
  ℕ, ℤ, pos, Bool, true, false, Option, none, some, List, [], ◌∷◌, ◌++◌, if◌then◌else◌, eqb,
}
use sub_sdk.Go.Text.{Bytes, bytes}
use sub_sdk.Go.Split.{split}
use sub_sdk.Go.Path.{ext, is_same, last_name, slash}
use sub_sdk.Filex.{
  Res, got, failed, Step, pure, fail, ◌>>=◌, ◌>>◌, labelled, Read, no_open, cut, whole, Node, file,
  dir, sealed, link, special, broken, Names, rel, walk_error, is_dir, opened, walk,
}
use sub_sdk.Filex.Items.{
  Header, Item, header, body, Items, write_to, file_info_header, open_file, copy,
}
use sub_sdk.Filex.Archive.{answer, tar_name}

-- A stream of bytes: the pieces of a tar archive, or bytes whose first block is no header of tar.
pub data Stream : Type 0 where
  tar_stream : Items → Stream
  raw_stream : Bytes → Stream

-- encLevel
unfoldable pub enc_level : List ℤ → ℤ
enc_level [] = pos 5
enc_level (level ∷ levels) = level

unfoldable pub zst_name : Bytes → Bytes
unfolding ext
zst_name object_name =
    if eqb (ext object_name) (bytes ".zst") then object_name else object_name ++ bytes ".zst"

-- filepath.Rel(filepath.Dir(srcPath), file)
unfoldable pub name_in_parent : Bytes → Names → Bytes
unfolding is_same tar_name rel split
name_in_parent source names =
    let last = last_name [] (split slash source) in
    if is_same last then rel names else tar_name last (rel names)

-- os.Readlink of a symbolic link
abbrev pub link_target : Node → Option (Res Bytes)
link_target (link mode t r) = some t
link_target _ = none

abbrev pub lift : {S A : Type 0} → Res A → Step S A
lift (got a) = pure a
lift (failed e) = fail e

module _ {S : Type 0} (write : Item → Step S Unit) where
  upload_content : Read → Step S Unit
  upload_content r = do open_file r; copy write r; pure tt

  upload_rest : Header → Node → Option (Res Bytes) → Step S Unit
  unfolding upload_content
  upload_rest h node (some t) = do target ← lift t; write (header (record h { linkname = target }))
  upload_rest h node none = do
    write (header h)
    if is_dir node then pure tt else upload_content (opened node)

  -- The function that the two walk with; they differ in the name of a file.
  unfoldable pub upload_visit : (Names → Bytes) → Names → Node → Step S Unit
  unfolding upload_rest
  upload_visit name_of names node = do
    answer (walk_error node)
    h ← file_info_header (name_of names) node
    upload_rest h node (link_target node)

-- The encoder that NewWriter makes at a level or its error, the path, what os.Stat says of it (whether
-- it is a directory), what lies there, and which pieces the pipe does not take.
pub record Upload : Type 0 where
  pub encoder : ℤ → Option Bytes
  pub source : Bytes
  pub stat : Res Bool
  pub tree : Node
  pub refuses : Items → Item → Option Bytes

-- What a reader of the pipe gets: the stream, and the error that it is closed with.
abbrev pub Piped : Type 0
Piped = Stream × Option Bytes

pack_dir : (Names → Bytes) → Upload → Piped
unfolding upload_visit walk
pack_dir name_of u =
    let (items, r) = walk (upload_visit (write_to u.refuses) name_of) [] u.tree [] in
    elim r [
      | got a ↦ (tar_stream items, none)
      | failed e ↦ (tar_stream items, some (bytes "打包目录失败: " ++ e))
    ]

pack_file : Read → Piped
pack_file (whole bs) = (raw_stream bs, none)
pack_file (cut bs e) = (raw_stream bs, some (bytes "写入压缩数据失败: " ++ e))
pack_file (no_open e) = (raw_stream [], some (bytes "打开源文件失败: " ++ e))

pack : (Names → Bytes) → Upload → Res Bool → Piped
unfolding pack_dir pack_file
pack name_of u (failed e) = (raw_stream [], some (bytes "获取源路径信息失败: " ++ e))
pack name_of u (got true) = pack_dir name_of u
pack name_of u (got false) = pack_file (opened u.tree)

-- The goroutine.
unfoldable pub produce : (Names → Bytes) → Upload → List ℤ → Piped
unfolding pack enc_level
produce name_of u levels = elim (u.encoder (enc_level levels)) [
  | some e ↦ (raw_stream [], some (bytes "创建 zstd writer 失败: " ++ e))
  | none ↦ pack name_of u u.stat
]

-- PutObject: what it answers for an object's name and what it reads.
module _ (put_object : Bytes → Piped → Option Bytes) where
  uploaded : Bytes → Option Bytes → Res Bytes
  uploaded object_name none = got object_name
  uploaded object_name (some e) = failed (bytes "上传失败: " ++ e)

  pub compress_and_upload : Upload → Bytes → List ℤ → Res Bytes
  unfolding uploaded zst_name produce name_in_parent
  compress_and_upload u object_name levels =
      uploaded (zst_name object_name)
        (put_object (zst_name object_name) (produce (name_in_parent u.source) u levels))

  pub compress_and_upload_self : Upload → Bytes → List ℤ → Res Bytes
  unfolding uploaded zst_name produce rel
  compress_and_upload_self u object_name levels =
      uploaded (zst_name object_name) (put_object (zst_name object_name) (produce rel u levels))
