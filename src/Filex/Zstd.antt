-- ===== src/Filex/Zstd.antt =====
-- filex/zstd.go CompressZstd and DecompressZstd. CompressZstd writes into its file what CompressAndUpload
-- writes into its pipe, with the same function for the walk and the same texts of its errors.
mod Examples
pub mod SingleFile
use sub_sdk.Base.{
  ℕ, ℤ, Bool, true, false, Option, none, some, List, [], ◌∷◌, ◌++◌, if◌then◌else◌, zero, suc,
}
use sub_sdk.Go.Text.{Bytes, bytes}
use sub_sdk.Go.Index.{has_prefix}
use sub_sdk.Go.Path.{clean, join_path, dir_path}
use sub_sdk.Filex.{Res, got, failed, Step, pure, fail, ◌>>=◌, ◌>>◌, labelled, Read}
use sub_sdk.Filex.Items.{
  Header, Flag, type_reg, type_dir, type_symlink, type_other, Item, header, Items,
}
use sub_sdk.Filex.Archive.{answer}
use sub_sdk.Filex.Extract.{Op, mkdir, create, fill, Disk, do_op, copy_out, read_items}
use sub_sdk.Filex.Upload.{
  Stream, tar_stream, raw_stream, Piped, Upload, produce, zst_name, name_in_parent,
}

-- What is in the file after the deferred Close calls, whose errors are dropped: they write what the encoder
-- holds back and the end of the archive. `none` if none of them fails, or what the file then holds.
abbrev pub kept_stream : Option Stream → Stream → Stream
kept_stream none stream = stream
kept_stream (some left) stream = left

-- What CompressZstd returns for what was written.
zstd_answer : (Stream → Option Stream) → Bytes → Piped → Stream × Res Bytes
zstd_answer close dst (stream, none) = (kept_stream (close stream) stream, got dst)
zstd_answer close dst (stream, some e) = (kept_stream (close stream) stream, failed e)

-- The stream in the file, and what is returned; the first two arguments are what os.Create and Close answer.
unfoldable pub compress_zstd :
    Option Bytes → (Stream → Option Stream) → Upload → Bytes → List ℤ → Stream × Res Bytes
unfolding zstd_answer zst_name produce name_in_parent
compress_zstd (some e) close u dst levels = (raw_stream [], failed (bytes "创建压缩文件失败: " ++ e))
compress_zstd none close u dst levels =
    zstd_answer close (zst_name dst) (produce (name_in_parent u.source) u levels)

zeros : ℕ → Bytes
zeros zero = []
zeros (suc n) = 0 ∷ zeros n

-- The errors of os.Open and zstd.NewReader, the decoded stream, the error of reading all of it, and for bytes
-- that were not written as an archive the first header and the other pieces that tar.Reader finds in them,
-- or `none` if their first block is no header.
pub record ZstdFile : Type 0 where
  pub opening : Option Bytes
  pub decoding : Option Bytes
  pub stream : Stream
  pub reading : Option Bytes
  pub as_tar : Bytes → Option (Header × Items)

module _ {S : Type 0} (make : Op → Step S Unit) (dst : Bytes) where
  unzstd_place : Flag → Bytes → Header → Read → Step S Unit
  unzstd_place type_dir path h r = make (mkdir path h.mode)
  unzstd_place type_reg path h r = do
    make (mkdir (dir_path path) 0o755)
    make (create path)
    copy_out make path r
  unzstd_place type_symlink path h r = pure tt
  unzstd_place type_other path h r = pure tt

  -- The body of the loop.
  unzstd_entry : Header → Read → Step S Unit
  unfolding unzstd_place
  unzstd_entry h r =
      let path = join_path dst h.name in
      if has_prefix (clean dst ++ bytes "/") path
      then unzstd_place h.flag path h r
      else fail (bytes "非法文件路径: " ++ path)

  unzstd_entries : List (Header × Read) → Step S Unit
  unfolding unzstd_entry
  unzstd_entries [] = pure tt
  unzstd_entries ((h, r) ∷ entries) = do unzstd_entry h r; unzstd_entries entries

  -- The branch of a single file.
  unzstd_file : Bytes → Step S Unit
  unzstd_file bs = do
    labelled (bytes "创建目标目录失败: ") (make (mkdir (dir_path dst) 0o755))
    labelled (bytes "创建输出文件失败: ") (make (create dst))
    labelled (bytes "写入输出文件失败: ") (make (fill dst bs))

  -- The branch of an archive.
  unzstd_archive : Items → Step S Unit
  unfolding unzstd_entries
  unzstd_archive items = do
    labelled (bytes "创建解压目录失败: ") (make (mkdir dst 0o755))
    unzstd_entries (read_items items)

  -- The test for a first header; an archive of no entry is two blocks of zeros.
  unzstd_stream : (Bytes → Option (Header × Items)) → Stream → Step S Unit
  unfolding unzstd_archive unzstd_file zeros
  unzstd_stream as_tar (tar_stream []) = unzstd_file (zeros 1024)
  unzstd_stream as_tar (tar_stream (item ∷ items)) = unzstd_archive (item ∷ items)
  unzstd_stream as_tar (raw_stream bs) = elim (as_tar bs) [
    | none ↦ unzstd_file bs
    | some (h, items) ↦ unzstd_archive (header h ∷ items)
  ]

module _ (refuses : Disk → Op → Option Bytes) where
  unfoldable pub decompress_zstd : ZstdFile → Bytes → Step Disk Bytes
  unfolding unzstd_stream
  decompress_zstd f dst = do
    labelled (bytes "打开压缩文件失败: ") (answer f.opening)
    labelled (bytes "创建 zstd reader 失败: ") (answer f.decoding)
    labelled (bytes "读取解压数据失败: ") (answer f.reading)
    unzstd_stream (do_op refuses) dst f.as_tar f.stream
    pure dst
