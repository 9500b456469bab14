-- ===== src/Filex/Upload/Examples.antt =====
-- Uploads of a folder and of a file.
use sub_sdk.Base.{pos, ◌≡◌, refl, true, false, Option, none, [], ◌∷◌, eqb}
use sub_sdk.Go.Text.{Bytes, bytes}
use sub_sdk.Go.Split.{split, join}
use sub_sdk.Go.Path.{ext, is_same}
use sub_sdk.Filex.{got, failed, rel, walk, no_open, file}
use sub_sdk.Filex.Items.{header, body}
use sub_sdk.Filex.Sample.{notes, tree, locked_tree, file_header, dir_header, link_header}
use sub_sdk.Filex.Archive.{tar_name}
use sub_sdk.Filex.Extract.RoundTrip.{never}
use sub_sdk.Filex.Upload.{
  Upload, Piped, tar_stream, enc_level, zst_name, name_in_parent, upload_content, upload_rest,
  upload_visit, pack_dir, pack_file, pack, produce, uploaded, compress_and_upload,
  compress_and_upload_self,
}

abbrev folder : Upload
folder = record {
  encoder = λ level. none;
  source = bytes "/w/db";
  stat = got true;
  tree = tree;
  refuses = never;
}

-- A store that reports the error of what it reads.
abbrev put_object : Bytes → Piped → Option Bytes
put_object name (stream, e) = e

packed : produce (name_in_parent (bytes "/w/db")) folder [] ≡ (
  tar_stream (
      header (dir_header (bytes "db"))
      ∷ header (file_header (bytes "db/a"))
      ∷ body notes
      ∷ header (record (link_header (bytes "db/l")) { linkname = bytes "a" })
      ∷ header (dir_header (bytes "db/s"))
      ∷ header (record (file_header (bytes "db/s/b")) { mode = 384 })
      ∷ body []
      ∷ []),
  none,
)
unfolding produce pack pack_dir upload_visit upload_rest upload_content enc_level walk rel join
    name_in_parent split is_same tar_name eqb
packed = refl

levels : (enc_level [] ≡ pos 5) × (enc_level (pos 9 ∷ []) ≡ pos 9)
unfolding enc_level
levels = (refl, refl)

answers :
    (compress_and_upload put_object folder (bytes "o") [] ≡ got (bytes "o.zst"))
    × (compress_and_upload_self put_object (record folder { tree = locked_tree }) (bytes "o.zst") []
        ≡ failed (bytes "上传失败: 打包目录失败: denied"))
    × (compress_and_upload_self put_object
          (record folder { stat = got false; tree = file 420 (no_open (bytes "denied")) })
          (bytes "o.tar")
          []
        ≡ failed (bytes "上传失败: 打开源文件失败: denied"))
unfolding compress_and_upload compress_and_upload_self uploaded produce pack pack_dir pack_file
    upload_visit upload_rest upload_content enc_level zst_name ext walk rel join name_in_parent
    split is_same tar_name eqb
answers = (refl, refl, refl)
