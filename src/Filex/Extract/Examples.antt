-- ===== src/Filex/Extract/Examples.antt =====
-- Extraction of an archive, and of entries that climb out of the destination.
use sub_sdk.Base.{◌≡◌, refl, false, none, some, [], ◌∷◌, eqb}
use sub_sdk.Go.Text.{bytes}
use sub_sdk.Go.Split.{split, join}
use sub_sdk.Go.Path.{
  clean, join_path, dir_path, base_path, is_same, pop, push, push_all, reverse_onto, print_path,
}
use sub_sdk.Filex.{got, failed, rel, walk, whole}
use sub_sdk.Filex.Items.{header, body, Items}
use sub_sdk.Filex.Sample.{notes, tree, file_header, dir_header, link_header}
use sub_sdk.Filex.Archive.{
  ArchiveTarget, prepare, tar_name, tar_visit_base, compress_files_or_folds_base,
}
use sub_sdk.Filex.Walk.{listing}
use sub_sdk.Filex.Archive.Complete.{Closes, own_items_base}
use sub_sdk.Filex.Extract.{
  mkdir, create, fill, Source, read_items, untar_entry, untar_entries, unzip_entry, unzip_entries,
  decompress_tar_gz, unzip_dir, decompress_auto,
}
use sub_sdk.Filex.Extract.RoundTrip.{
  never, rebuilt, under, decompress_tar_gz-compress_files_or_folds_base,
}

abbrev source : Items → Source
source items = record { opening = none; decoding = none; entries = read_items items; ending = none }

abbrev target : ArchiveTarget
target = record {
  path = bytes "/t/o";
  making = none;
  creating = none;
  refuses = never;
  close = λ items. none;
}

abbrev packed : Items
packed =
    header (dir_header (bytes "db"))
    ∷ header (file_header (bytes "db/a"))
    ∷ body notes
    ∷ header (link_header (bytes "db/l"))
    ∷ header (dir_header (bytes "db/s"))
    ∷ header (record (file_header (bytes "db/s/b")) { mode = 384 })
    ∷ body []
    ∷ []

packed_runs : compress_files_or_folds_base target (bytes "/w/db") tree ≡ (packed, got tt)
unfolding compress_files_or_folds_base prepare tar_visit_base tar_name walk rel join base_path split
    eqb
packed_runs = refl

-- The link is not rebuilt.
rebuilt_runs :
    rebuilt (under (bytes "/x") (base_path (bytes "/w/db"))) [] tree
    ≡ mkdir (bytes "/x/db") 493
      ∷ mkdir (bytes "/x/db") 0o755
      ∷ create (bytes "/x/db/a")
      ∷ fill (bytes "/x/db/a") notes
      ∷ mkdir (bytes "/x/db/s") 493
      ∷ mkdir (bytes "/x/db/s") 0o755
      ∷ create (bytes "/x/db/s/b")
      ∷ fill (bytes "/x/db/s/b") []
      ∷ []
unfolding rebuilt tar_name rel base_path clean join_path dir_path split join eqb is_same pop push
    push_all reverse_onto print_path
rebuilt_runs = refl

packed-Closes : Closes target (listing (own_items_base (base_path (bytes "/w/db"))) [] tree)
packed-Closes = refl

decompress_tar_gz-compress_files_or_folds_base_example :
    decompress_tar_gz never (bytes "/x") (source packed) []
    ≡ (rebuilt (under (bytes "/x") (base_path (bytes "/w/db"))) [] tree, got tt)
decompress_tar_gz-compress_files_or_folds_base_example =
    decompress_tar_gz-compress_files_or_folds_base target (bytes "/w/db") (bytes "/x") tree packed
      packed-Closes packed_runs

-- An entry that climbs is written outside, by both functions.
climbing :
    (decompress_tar_gz never
        (bytes "/x")
        (source (header (file_header (bytes "../a")) ∷ body notes ∷ []))
        []
      ≡ (mkdir (bytes "/") 0o755 ∷ create (bytes "/a") ∷ fill (bytes "/a") notes ∷ [], got tt))
    × (unzip_dir never
          (bytes "/x")
          (record {
            opening = none;
            entries = (record { name = bytes "../a"; is_dir = false; read = whole notes }) ∷ [];
          })
          []
        ≡ (
          mkdir (bytes "/x") 0o777
              ∷ mkdir (bytes "/") 0o777
              ∷ create (bytes "/a")
              ∷ fill (bytes "/a") notes
              ∷ [],
          got tt,
        ))
unfolding decompress_tar_gz unzip_dir untar_entries untar_entry unzip_entries unzip_entry read_items
    clean join_path dir_path split join eqb is_same pop push push_all reverse_onto print_path
climbing = (refl, refl)

by_suffix :
    (decompress_auto never
        (λ p. source [])
        (λ p. record { opening = some (bytes "bad"); entries = [] })
        (bytes "a.zip")
        (bytes "/x")
        []
      ≡ (mkdir (bytes "/x") 0o777 ∷ [], failed (bytes "bad")))
    × (decompress_auto never
          (λ p. source [])
          (λ p. record { opening = none; entries = [] })
          (bytes "a.rar")
          (bytes "/x")
          []
        ≡ ([], failed (bytes "不支持的压缩格式: a.rar")))
unfolding decompress_auto decompress_tar_gz unzip_dir untar_entries unzip_entries read_items eqb
by_suffix = (refl, refl)
