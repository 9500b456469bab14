-- ===== src/Filex/Download/Examples.antt =====
-- Downloads of a folder, of a file, and of entries that leave the destination.
use sub_sdk.Base.{◌≡◌, refl, true, false, none, [], ◌∷◌, eqb, All, arith, Option, some}
use sub_sdk.Go.Text.{Bytes, bytes}
use sub_sdk.Go.Split.{split, join}
use sub_sdk.Go.Index.{has_prefix}
use sub_sdk.Go.Path.{
  clean, join_path, dir_path, is_same, pop, push, push_all, reverse_onto, print_path,
}
use sub_sdk.Filex.{got, failed, rel, walk, whole, file}
use sub_sdk.Filex.Items.{Header, header, body, Items}
use sub_sdk.Filex.Sample.{notes, tree, entries, file_header, dir_header, link_header}
use sub_sdk.Filex.Extract.{mkdir, create, fill, symlink, read_items}
use sub_sdk.Filex.Extract.RoundTrip.{never}
use sub_sdk.Filex.Upload.{Upload, Stream, tar_stream, raw_stream, upload_visit, produce, enc_level}
use sub_sdk.Filex.Download.{
  Object, block_read, after_next, reread, is_inside, place, place_entry, place_entries,
  place_archive, place_stream, download_and_decompress,
}
use sub_sdk.Filex.Download.Safe.{IsConfined, download_and_decompress-IsConfined}
use sub_sdk.Filex.Download.FirstBlock.{fetched, download_and_decompress_lacks_first_block}
use sub_sdk.Filex.Download.RoundTrip.{placed_entries, AreNamed, download_and_decompress-produce}

abbrev no_tar : Bytes → Option (Header × Items)
no_tar bs = none

abbrev object : Stream → Object
object stream = record {
  getting = none;
  decoding = none;
  stream = stream;
  reading = none;
  as_tar = no_tar;
}

-- A second entry that climbs is refused, after the first one.
climbing :
    download_and_decompress never
      (object (
        tar_stream (
          header (dir_header (bytes "."))
          ∷ header (file_header (bytes "a"))
          ∷ body notes
          ∷ header (file_header (bytes "../b"))
          ∷ body notes
          ∷ [])))
      (bytes "/x")
      []
    ≡ (
      mkdir (bytes "/x") 0o755
          ∷ mkdir (bytes "/x") 0o755
          ∷ create (bytes "/x/a")
          ∷ fill (bytes "/x/a") notes
          ∷ [],
      failed (bytes "非法文件路径: /b"),
    )
unfolding download_and_decompress after_next reread read_items place_stream place_archive
    place_entries place_entry place is_inside has_prefix clean join_path dir_path split join eqb
    is_same pop push push_all reverse_onto print_path
climbing = refl

-- The target of a link is not looked at.
link_out :
    download_and_decompress never
      (object (
        tar_stream (
          header (dir_header (bytes "."))
          ∷ header (record (link_header (bytes "l")) { linkname = bytes "/etc" })
          ∷ [])))
      (bytes "/x")
      []
    ≡ (
      mkdir (bytes "/x") 0o755
          ∷ mkdir (bytes "/x") 0o755
          ∷ symlink (bytes "/etc") (bytes "/x/l")
          ∷ [],
      got (bytes "/x"),
    )
unfolding download_and_decompress after_next reread read_items place_stream place_archive
    place_entries place_entry place is_inside has_prefix clean join_path dir_path split join eqb
    is_same pop push push_all reverse_onto print_path
link_out = refl

abbrev folder : Upload
folder = record {
  encoder = λ level. none;
  source = bytes "/w";
  stat = got true;
  tree = tree;
  refuses = never;
}

download_and_decompress-IsConfined_example :
    All
      (IsConfined (bytes "/x"))
      (download_and_decompress never
        (object (
          tar_stream
            (header (dir_header (bytes ".")) ∷ header (file_header (bytes "a")) ∷ body notes ∷ [])))
        (bytes "/x")
        []).0
download_and_decompress-IsConfined_example =
    download_and_decompress-IsConfined never
      (object (
        tar_stream
          (header (dir_header (bytes ".")) ∷ header (file_header (bytes "a")) ∷ body notes ∷ [])))
      (bytes "/x")

-- A file of five bytes comes back empty.
download_and_decompress_lacks_first_block_example :
    (produce rel (record folder { stat = got false; tree = file 420 (whole notes) }) []
      ≡ (raw_stream notes, none))
    × (download_and_decompress never (fetched no_tar notes) (bytes "/x") [] ≡ (
      mkdir (dir_path (bytes "/x")) 0o755 ∷ create (bytes "/x") ∷ fill (bytes "/x") [] ∷ [],
      got (bytes "/x"),
    ))
download_and_decompress_lacks_first_block_example =
    download_and_decompress_lacks_first_block rel no_tar
      (record folder { stat = got false; tree = file 420 (whole notes) }) [] notes (bytes "/x") refl
      refl refl refl refl

one_block :
    (block_read notes ≡ 512)
    × (after_next no_tar (raw_stream notes) ≡ raw_stream [])
    × (after_next (λ bs. some (file_header (bytes "a"), body notes ∷ [])) (raw_stream notes)
        ≡ tar_stream (body notes ∷ []))
unfolding block_read after_next
one_block = (refl, refl, refl)

abbrev packed : Items
packed =
    header (dir_header (bytes "."))
    ∷ header (file_header (bytes "a"))
    ∷ body notes
    ∷ header (record (link_header (bytes "l")) { linkname = bytes "a" })
    ∷ header (dir_header (bytes "s"))
    ∷ header (record (file_header (bytes "s/b")) { mode = 384 })
    ∷ body []
    ∷ []

packed_runs : produce rel folder [] ≡ (tar_stream packed, none)
unfolding produce upload_visit walk rel join enc_level
packed_runs = refl

named : AreNamed entries
unfolding is_same eqb
named = (
  ((omega arith, tt), refl, refl),
  tt,
  (
    ((omega arith, tt), refl, refl),
    tt,
    (((omega arith, tt), refl, refl), (((omega arith, tt), refl, refl), tt, tt), tt),
  ),
)

download_and_decompress-produce_example :
    download_and_decompress never (object (tar_stream packed)) (bytes "/x") []
    ≡ (mkdir (bytes "/x") 0o755 ∷ placed_entries (bytes "/x") [] entries, got (bytes "/x"))
unfolding print_path is_same eqb
download_and_decompress-produce_example =
    download_and_decompress-produce folder [] 493 entries packed (bytes "x") [] no_tar refl
      packed_runs named (((omega arith, tt), refl, refl), tt)
