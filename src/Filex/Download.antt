-- ===== src/Filex/Download.antt =====
-- filex/zstd-upload.go DownloadAndDecompress: a first tar.Reader looks for a header, and what it leaves of the decoded
-- stream is extracted, or is written as one file.
pub mod Safe
mod Examples
pub mod RoundTrip
pub mod FirstBlock
use sub_sdk.Base.{
  ℕ, Bool, true, false, Option, none, some, List, [], ◌∷◌, ◌++◌, if◌then◌else◌, eqb, length, take,
  drop, leb, ◌&&◌, ◌==◌,
}
use sub_sdk.Go.Text.{Bytes, bytes}
use sub_sdk.Go.Index.{has_prefix}
use sub_sdk.Go.Path.{clean, join_path, dir_path}
use sub_sdk.Filex.{Res, got, failed, Step, pure, fail, ◌>>=◌, ◌>>◌, labelled, Read, whole}
use sub_sdk.Filex.Items.{
  Header, Flag, type_reg, type_dir, type_symlink, type_other, Item, header, body, Items,
}
use sub_sdk.Filex.Archive.{answer}
use sub_sdk.Filex.Extract.{Op, mkdir, create, fill, symlink, Disk, do_op, copy_out, read_items}
use sub_sdk.Filex.Upload.{Stream, tar_stream, raw_stream}

-- The errors of GetObject and zstd.NewReader, the decoded stream, the error of reading all of it, and for
-- bytes that were not written as an archive the first header and the other pieces that tar.Reader finds in
-- them, or `none` if their first block is no header.
pub record Object : Type 0 where
  pub getting : Option Bytes
  pub decoding : Option Bytes
  pub stream : Stream
  pub reading : Option Bytes
  pub as_tar : Bytes → Option (Header × Items)

abbrev pub only_zeros : Bytes → Bool
only_zeros [] = true
only_zeros (b ∷ bs) = b == 0 && only_zeros bs

-- The bytes that tar.Reader.Next has read when it finds no header: a block of 512, and after a block
-- of zeros one more.
unfoldable pub block_read : Bytes → ℕ
block_read bs = if leb 512 (length bs) && only_zeros (take 512 bs) then 1024 else 512

-- What the first Next leaves of the stream: more pieces after a header, or the rest of other bytes.
unfoldable pub after_next : (Bytes → Option (Header × Items)) → Stream → Stream
unfolding block_read
after_next as_tar (tar_stream (header h ∷ items)) = tar_stream items
after_next as_tar (tar_stream items) = raw_stream []
after_next as_tar (raw_stream bs) = elim (as_tar bs) [
  | none ↦ raw_stream (drop (block_read bs) bs)
  | some (h, items) ↦ tar_stream items
]

-- What the second reader reads, and the error that it ends with: content in place of a header is none.
unfoldable pub reread : Items → List (Header × Read) × Option Bytes
reread (body [] ∷ items) = (read_items items, none)
reread (body (b ∷ bs) ∷ items) = ([], some (bytes "archive/tar: invalid tar header"))
reread items = (read_items items, none)

-- The check on the path of an entry.
unfoldable pub is_inside : Bytes → Bytes → Bool
unfolding clean
is_inside dst path = has_prefix (clean dst ++ bytes "/") (clean path)

module _ {S : Type 0} (make : Op → Step S Unit) (dst : Bytes) where
  place : Flag → Bytes → Header → Read → Step S Unit
  place type_dir path h r = make (mkdir path h.mode)
  place type_reg path h r = do
    make (mkdir (dir_path path) 0o755)
    make (create path)
    copy_out make path r
  place type_symlink path h r = do
    make (mkdir (dir_path path) 0o755)
    make (symlink h.linkname path)
  place type_other path h r = pure tt

  -- The body of the loop.
  unfoldable pub place_entry : Header → Read → Step S Unit
  unfolding place is_inside
  place_entry h r =
      let path = join_path dst h.name in
      if is_inside dst path then place h.flag path h r else fail (bytes "非法文件路径: " ++ path)

  unfoldable pub place_entries : Option Bytes → List (Header × Read) → Step S Unit
  unfolding place_entry
  place_entries ending [] = labelled (bytes "读取 tar 条目失败: ") (answer ending)
  place_entries ending ((h, r) ∷ entries) = do place_entry h r; place_entries ending entries

  -- The branch of an archive, on what is left of it.
  place_archive : Option Bytes → Items → Step S Unit
  unfolding place_entries reread
  place_archive reading items = do
    labelled (bytes "创建解压目录失败: ") (make (mkdir dst 0o755))
    labelled (bytes "读取解压数据失败: ") (answer reading)
    let (entries, ending) = reread items
    place_entries ending entries

  -- The branch of a single file.
  place_file : Option Bytes → Bytes → Step S Unit
  place_file reading bs = do
    labelled (bytes "创建目标目录失败: ") (make (mkdir (dir_path dst) 0o755))
    labelled (bytes "创建输出文件失败: ") (make (create dst))
    labelled (bytes "写入输出文件失败: ") (make (fill dst bs) >> answer reading)

  place_stream : Option Bytes → Stream → Step S Unit
  unfolding place_archive place_file
  place_stream reading (tar_stream items) = place_archive reading items
  place_stream reading (raw_stream bs) = place_file reading bs

module _ (refuses : Disk → Op → Option Bytes) where
  unfoldable pub download_and_decompress : Object → Bytes → Step Disk Bytes
  unfolding place_stream after_next
  download_and_decompress object dst = do
    labelled (bytes "下载对象失败: ") (answer object.getting)
    labelled (bytes "创建 zstd reader 失败: ") (answer object.decoding)
    place_stream (do_op refuses) dst object.reading (after_next object.as_tar object.stream)
    pure dst
