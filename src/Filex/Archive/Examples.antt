-- ===== src/Filex/Archive/Examples.antt =====
-- Archives of two folders, one of them with a file that cannot be opened.
use sub_sdk.Base.{◌≡◌, refl, none, some, [], ◌∷◌, eqb}
use sub_sdk.Go.Text.{bytes}
use sub_sdk.Go.Split.{split, join}
use sub_sdk.Go.Path.{clean, join_path, base_path, is_same, push, push_all, reverse_onto, print_path}
use sub_sdk.Filex.{Res, got, failed, rel, walk}
use sub_sdk.Filex.Items.{header, body, Items}
use sub_sdk.Filex.Walk.{listing, Everywhere}
use sub_sdk.Filex.Sample.{notes, tree, locked_tree, file_header, dir_header, link_header}
use sub_sdk.Filex.Archive.{
  ArchiveTarget, prepare, tar_body, tar_name, tar_visit, tar_visit_base, zip_header, zip_file,
  zip_visit, zip_visit_base, compress_files_or_folds, compress_files_or_folds_base, zip_dir,
  zip_dir_base,
}
use sub_sdk.Filex.Archive.Zip.{zip_own, IsZipSound, zip_dir_complete}

abbrev target : ArchiveTarget
target = record {
  path = bytes "/t/o";
  making = none;
  creating = none;
  refuses = λ items item. none;
  close = λ items. none;
}

packed_base : Items × Res Unit
unfolding compress_files_or_folds_base prepare tar_visit_base tar_body tar_name walk rel join
    base_path split eqb
packed_base = compress_files_or_folds_base target (bytes "/w/db") tree

packed_base_runs : packed_base ≡ (
  header (dir_header (bytes "db"))
      ∷ header (file_header (bytes "db/a"))
      ∷ body notes
      ∷ header (link_header (bytes "db/l"))
      ∷ header (dir_header (bytes "db/s"))
      ∷ header (record (file_header (bytes "db/s/b")) { mode = 384 })
      ∷ body []
      ∷ [],
  got tt,
)
unfolding packed_base
packed_base_runs = refl

abbrev packed_items : Items
packed_items =
    header (record (dir_header (bytes ".")) { mode = 493 })
    ∷ header (file_header (bytes "a"))
    ∷ body notes
    ∷ header (link_header (bytes "l"))
    ∷ header (dir_header (bytes "s"))
    ∷ header (record (file_header (bytes "s/b")) { mode = 384 })
    ∷ body []
    ∷ []

packed_runs : compress_files_or_folds target [] tree ≡ (packed_items, got tt)
unfolding compress_files_or_folds prepare tar_visit tar_body walk rel join
packed_runs = refl

-- An error of the folder, and one of a file that cannot be opened.
failures :
    (compress_files_or_folds (record target { making = some (bytes "full") }) [] tree
      ≡ ([], failed (bytes "创建目录 /t/o 错误：full")))
    × ((compress_files_or_folds target [] locked_tree).1 ≡ failed (bytes "denied"))
    × ((zip_dir target [] locked_tree).1 ≡ failed (bytes "打开文件失败: denied"))
unfolding compress_files_or_folds zip_dir prepare tar_visit tar_body zip_visit zip_file zip_header
    walk rel join
failures = (refl, refl, refl)

-- The same file fails ZipDirBase without an error, and what follows it is left out.
unreported :
    zip_dir_base target (bytes "/w/db") locked_tree
    ≡ (header (record (file_header (bytes "db/a")) { mode = 0 }) ∷ [], got tt)
unfolding zip_dir_base prepare zip_visit_base zip_file zip_header walk rel join base_path split eqb
    join_path clean push push_all reverse_onto print_path is_same
unreported = refl

abbrev zip_items_of_tree : Items
zip_items_of_tree =
    header (record (file_header (bytes "a")) { mode = 0 })
    ∷ body notes
    ∷ header (record (file_header (bytes "l")) { mode = 0 })
    ∷ body notes
    ∷ header (record (file_header (bytes "s/b")) { mode = 0 })
    ∷ body []
    ∷ []

zip_runs : zip_dir target [] tree ≡ (zip_items_of_tree, got tt)
unfolding zip_dir prepare zip_visit zip_file zip_header walk rel join
zip_runs = refl

zip_dir_complete_example :
    (zip_items_of_tree ≡ listing zip_own [] tree) × Everywhere IsZipSound tree
zip_dir_complete_example = zip_dir_complete target [] tree zip_items_of_tree refl zip_runs

-- A Close that fails leaves a file with no piece in it, and no error.
cut_short : zip_dir (record target { close = λ items. some [] }) [] tree ≡ ([], got tt)
unfolding zip_dir prepare zip_visit zip_file zip_header walk rel join
cut_short = refl
