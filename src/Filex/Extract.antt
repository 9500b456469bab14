-- ===== src/Filex/Extract.antt =====
-- filex/tar.go DecompressTarGz and DecompressAuto, filex/zip.go UnzipDir: what extraction asks of the file system.
pub mod RoundTrip
mod Examples
use sub_sdk.Base.{
  ℕ, Bool, true, false, Option, none, some, List, [], ◌∷◌, ◌++◌, if◌then◌else◌, leb, length, drop,
  ◌-◌, ◌&&◌, eqb,
}
use sub_sdk.Go.Text.{Bytes, bytes}
use sub_sdk.Go.Path.{join_path, dir_path}
use sub_sdk.Filex.{
  Res, got, failed, Step, pure, fail, ◌>>=◌, ◌>>◌, labelled, Read, no_open, cut, whole,
}
use sub_sdk.Filex.Items.{
  Header, Flag, type_reg, type_dir, type_symlink, type_other, Item, header, body, Items,
}
use sub_sdk.Filex.Archive.{answer}

-- A change of the file system: os.MkdirAll, os.Create, what io.Copy writes, os.Symlink.
pub data Op : Type 0 where
  mkdir : Bytes → ℕ → Op
  create : Bytes → Op
  fill : Bytes → Bytes → Op
  symlink : Bytes → Bytes → Op

-- The changes that were made, in order; a change is made, or refused after those before it.
abbrev pub Disk : Type 0
Disk = List Op

abbrev pub do_op : (Disk → Op → Option Bytes) → Op → Step Disk Unit
do_op refuses op disk = elim (refuses disk op) [
  | some e ↦ (disk, failed e)
  | none ↦ (disk ++ op ∷ [], got tt)
]

-- os.MkdirAll with its error dropped
abbrev pub ignored : {S : Type 0} → Step S Unit → Step S Unit
ignored m s = ((m s).0, got tt)

-- io.Copy from an archive into the file that was created
abbrev pub copy_out : {S : Type 0} → (Op → Step S Unit) → Bytes → Read → Step S Unit
copy_out make path (no_open e) = fail e
copy_out make path (cut bs e) = do make (fill path bs); fail e
copy_out make path (whole bs) = make (fill path bs)

-- What tar.Reader reads of the pieces: a header, and the content that follows it.
abbrev pub content : Items → Read
content (body bs ∷ rest) = whole bs
content _ = whole []

unfoldable pub read_items : Items → List (Header × Read)
read_items [] = []
read_items (header h ∷ rest) = (h, content rest) ∷ read_items rest
read_items (body bs ∷ rest) = read_items rest

-- An opened .tar.gz: the errors of os.Open and gzip.NewReader, the entries, and the error that
-- tr.Next ends with (none for io.EOF).
pub record Source : Type 0 where
  pub opening : Option Bytes
  pub decoding : Option Bytes
  pub entries : List (Header × Read)
  pub ending : Option Bytes

-- An entry of a zip file: its name, whether that is a directory's, and what f.Open and the copy give.
pub record ZipEntry : Type 0 where
  pub name : Bytes
  pub is_dir : Bool
  pub read : Read

pub record ZipSource : Type 0 where
  pub opening : Option Bytes
  pub entries : List ZipEntry

abbrev open_entry : {S : Type 0} → Read → Step S Unit
open_entry (no_open e) = fail e
open_entry _ = pure tt

module _ {S : Type 0} (make : Op → Step S Unit) (dst : Bytes) where
  -- The body of the loop of DecompressTarGz.
  unfoldable pub untar_entry : Header → Read → Step S Unit
  untar_entry h r =
      let path = join_path dst h.name in
      elim h.flag [
        | type_dir ↦ ignored (make (mkdir path h.mode))
        | type_reg ↦
            ignored (make (mkdir (dir_path path) 0o755))
            >> make (create path)
            >> copy_out make path r
        | type_symlink ↦ pure tt
        | type_other ↦ pure tt
      ]

  unfoldable pub untar_entries : Option Bytes → List (Header × Read) → Step S Unit
  unfolding untar_entry
  untar_entries ending [] = answer ending
  untar_entries ending ((h, r) ∷ entries) = do untar_entry h r; untar_entries ending entries

  -- The body of the loop of UnzipDir.
  unzip_entry : ZipEntry → Step S Unit
  unzip_entry f =
      let path = join_path dst f.name in
      if f.is_dir
      then labelled (bytes "创建目录失败: ") (make (mkdir path 0o777))
      else labelled (bytes "创建目录失败: ") (make (mkdir (dir_path path) 0o777))
        >> labelled (bytes "打开ZIP文件中的文件失败: ") (open_entry f.read)
        >> labelled (bytes "创建文件失败: ") (make (create path))
        >> labelled (bytes "复制文件内容失败: ") (copy_out make path f.read)

  unfoldable pub unzip_entries : List ZipEntry → Step S Unit
  unfolding unzip_entry
  unzip_entries [] = pure tt
  unzip_entries (f ∷ fs) = do unzip_entry f; unzip_entries fs

module _ (refuses : Disk → Op → Option Bytes) (dst : Bytes) where
  unfoldable pub decompress_tar_gz : Source → Step Disk Unit
  unfolding untar_entries
  decompress_tar_gz source = do
    answer source.opening
    answer source.decoding
    untar_entries (do_op refuses) dst source.ending source.entries

  unfoldable pub unzip_dir : ZipSource → Step Disk Unit
  unfolding unzip_entries
  unzip_dir source = do
    do_op refuses (mkdir dst 0o777)
    answer source.opening
    unzip_entries (do_op refuses) dst source.entries

-- strings.HasSuffix(s, suffix)
abbrev pub has_suffix : Bytes → Bytes → Bool
has_suffix s suffix =
    leb (length suffix) (length s) && eqb (drop (length s - length suffix) s) suffix

module _ (refuses : Disk → Op → Option Bytes) (tar : Bytes → Source) (zip : Bytes → ZipSource) where
  -- DecompressAuto, with what opening the path as either kind gives.
  unfoldable pub decompress_auto : Bytes → Bytes → Step Disk Unit
  unfolding decompress_tar_gz unzip_dir
  decompress_auto file_path dst =
      if has_suffix file_path (bytes ".zip")
      then unzip_dir refuses dst (zip file_path)
      else if has_suffix file_path (bytes ".tar.gz")
      then decompress_tar_gz refuses dst (tar file_path)
      else fail (bytes "不支持的压缩格式: " ++ file_path)
