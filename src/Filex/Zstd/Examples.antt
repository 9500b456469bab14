-- ===== src/Filex/Zstd/Examples.antt =====
-- A folder and a file, compressed and decompressed.
use sub_sdk.Base.{◌≡◌, refl, false, Option, none, some, [], ◌∷◌, eqb}
use sub_sdk.Go.Text.{Bytes, bytes}
use sub_sdk.Go.Split.{split, join}
use sub_sdk.Go.Index.{has_prefix}
use sub_sdk.Go.Path.{
  clean, join_path, dir_path, is_same, pop, push, push_all, reverse_onto, print_path,
}
use sub_sdk.Filex.{got, failed, whole, file}
use sub_sdk.Filex.Items.{Header, Items, header, body}
use sub_sdk.Filex.Sample.{notes, file_header, dir_header, link_header}
use sub_sdk.Filex.Extract.{mkdir, create, fill, read_items}
use sub_sdk.Filex.Extract.RoundTrip.{never}
use sub_sdk.Filex.Upload.{Upload, Stream, tar_stream, raw_stream, produce, zst_name}
use sub_sdk.Filex.Zstd.{
  ZstdFile, zstd_answer, compress_zstd, zeros, unzstd_place, unzstd_entry, unzstd_entries,
  unzstd_archive, unzstd_stream, decompress_zstd,
}
use sub_sdk.Filex.Zstd.SingleFile.{decompress_zstd-compress_zstd}

abbrev single : Upload
single = record {
  encoder = λ level. none;
  source = bytes "/w/n";
  stat = got false;
  tree = file 420 (whole notes);
  refuses = never;
}

abbrev closes : Stream → Option Stream
closes stream = none

abbrev no_tar : Bytes → Option (Header × Items)
no_tar bs = none

abbrev zstd_file : Upload → ZstdFile
zstd_file u = record {
  opening = none;
  decoding = none;
  stream = (compress_zstd none closes u (bytes "o") []).0;
  reading = none;
  as_tar = no_tar;
}

decompress_zstd-compress_zstd_example :
    (compress_zstd none closes single (bytes "o") []
      ≡ (raw_stream notes, got (zst_name (bytes "o"))))
    × (decompress_zstd never (zstd_file single) (bytes "/x") [] ≡ (
      mkdir (dir_path (bytes "/x")) 0o755 ∷ create (bytes "/x") ∷ fill (bytes "/x") notes ∷ [],
      got (bytes "/x"),
    ))
decompress_zstd-compress_zstd_example =
    decompress_zstd-compress_zstd single (bytes "o") (bytes "/x") notes [] no_tar closes refl refl
      refl refl refl

-- A Close that fails leaves an empty file, and the path is returned.
not_kept :
    compress_zstd none (λ stream. some (raw_stream [])) single (bytes "o") []
    ≡ (raw_stream [], got (zst_name (bytes "o")))
unfolding compress_zstd zstd_answer produce
not_kept = refl

-- A single file that is itself an archive is unpacked.
taken_apart :
    decompress_zstd never
      (record (zstd_file single) { as_tar = λ bs. some (dir_header (bytes "db"), []) })
      (bytes "/x")
      []
    ≡ (mkdir (bytes "/x") 0o755 ∷ mkdir (bytes "/x/db") 493 ∷ [], got (bytes "/x"))
unfolding decompress_zstd unzstd_stream unzstd_archive unzstd_entries unzstd_entry unzstd_place
    read_items has_prefix clean join_path dir_path split join eqb is_same pop push push_all
    reverse_onto print_path compress_zstd zstd_answer produce
taken_apart = refl

-- The link of an archive is left out.
unpacked :
    decompress_zstd never
      (record {
        opening = none;
        decoding = none;
        stream = tar_stream (
            header (dir_header (bytes "db"))
            ∷ header (file_header (bytes "db/a"))
            ∷ body notes
            ∷ header (link_header (bytes "db/l"))
            ∷ []);
        reading = none;
        as_tar = no_tar;
      })
      (bytes "/x")
      []
    ≡ (
      mkdir (bytes "/x") 0o755
          ∷ mkdir (bytes "/x/db") 493
          ∷ mkdir (bytes "/x/db") 0o755
          ∷ create (bytes "/x/db/a")
          ∷ fill (bytes "/x/db/a") notes
          ∷ [],
      got (bytes "/x"),
    )
unfolding decompress_zstd unzstd_stream unzstd_archive unzstd_entries unzstd_entry unzstd_place
    read_items has_prefix clean join_path dir_path split join eqb is_same pop push push_all
    reverse_onto print_path
unpacked = refl

zstd_failures :
    ((compress_zstd (some (bytes "full")) closes single (bytes "o") []).1
      ≡ failed (bytes "创建压缩文件失败: full"))
    × (zeros 2 ≡ 0 ∷ 0 ∷ [])
    × (zstd_answer closes (bytes "o") (raw_stream [], some (bytes "e"))
        ≡ (raw_stream [], failed (bytes "e")))
unfolding compress_zstd zeros zstd_answer
zstd_failures = (refl, refl, refl)
