-- ===== src/Filex/Split/Examples.antt =====
-- The sample in parts of five bytes and more.
use sub_sdk.Base.{◌≡◌, refl, true, none, [], ◌∷◌, eqb}
use sub_sdk.Go.Text.{bytes}
use sub_sdk.Go.Number.{show}
use sub_sdk.Go.Split.{split, join}
use sub_sdk.Go.Path.{clean, join_path, is_same, push, push_all, reverse_onto, print_path}
use sub_sdk.Filex.{got, failed, rel, walk}
use sub_sdk.Filex.Items.{header, body}
use sub_sdk.Filex.Sample.{notes, tree, locked_tree, file_header, dir_header, link_header}
use sub_sdk.Filex.Archive.{zip_header}
use sub_sdk.Filex.Archive.Complete.{own_items, IsSound}
use sub_sdk.Filex.Archive.Zip.{zip_own, IsZipSound}
use sub_sdk.Filex.Split.{
  Parts, SplitTarget, part_name, capped, create_part, split_body, split_visit, create_zip_part,
  zip_split_file, zip_split_visit, compress_and_split_files, zip_dir_and_split,
}
use sub_sdk.Filex.Split.Invariant.{IsComplete}
use sub_sdk.Filex.Split.Tar.{compress_and_split_files-IsComplete}
use sub_sdk.Filex.Split.Zip.{zip_dir_and_split-IsComplete}

abbrev target : SplitTarget
target = record {
  folder = bytes "/t";
  prefix = bytes "p";
  making = none;
  creating = λ name. none;
  refuses = λ items item. none;
  close = λ path items. none;
}

abbrev tar_parts : Parts
tar_parts = record {
  closed =
      (
        bytes "/t/p.tar.gz",
        header (dir_header (bytes ".")) ∷ header (file_header (bytes "a")) ∷ body notes ∷ [],
      )
      ∷ [];
  is_open = true;
  file_name = bytes "/t/p_1.tar.gz";
  items =
      header (link_header (bytes "l"))
      ∷ header (dir_header (bytes "s"))
      ∷ header (record (file_header (bytes "s/b")) { mode = 384 })
      ∷ body []
      ∷ [];
  current_size = 0;
  part_number = 1;
}

tar_split : compress_and_split_files target (bytes "/w") tree 5 ≡ (tar_parts, got tt)
unfolding compress_and_split_files capped split_visit split_body create_part part_name walk rel join
    show clean join_path split is_same push push_all reverse_onto print_path eqb
tar_split = refl

compress_and_split_files-IsComplete_example :
    IsComplete target (bytes ".tar.gz") (capped 5) own_items IsSound tree tar_parts
compress_and_split_files-IsComplete_example =
    compress_and_split_files-IsComplete target (bytes "/w") tree 5 tar_parts (λ path items. refl)
      tar_split

zip_split_fails : (zip_dir_and_split target locked_tree 5).1 ≡ failed (bytes "打开文件失败: denied")
unfolding zip_dir_and_split zip_split_visit zip_split_file create_zip_part create_part part_name
    walk rel join clean join_path split is_same push push_all reverse_onto print_path eqb zip_header
zip_split_fails = refl

abbrev zip_parts : Parts
zip_parts = record {
  closed =
      (bytes "/t/p.zip", header (record (file_header (bytes "a")) { mode = 0 }) ∷ body notes ∷ [])
      ∷ (
        bytes "/t/p_1.zip",
        header (record (file_header (bytes "l")) { mode = 0 }) ∷ body notes ∷ [],
      )
      ∷ [];
  is_open = true;
  file_name = bytes "/t/p_2.zip";
  items = header (record (file_header (bytes "s/b")) { mode = 0 }) ∷ body [] ∷ [];
  current_size = 0;
  part_number = 2;
}

zip_split : zip_dir_and_split target tree 5 ≡ (zip_parts, got tt)
unfolding zip_dir_and_split zip_split_visit zip_split_file create_zip_part create_part part_name
    walk rel join show clean join_path split is_same push push_all reverse_onto print_path eqb
    zip_header
zip_split = refl

zip_dir_and_split-IsComplete_example :
    IsComplete target (bytes ".zip") 5 zip_own IsZipSound tree zip_parts
zip_dir_and_split-IsComplete_example =
    zip_dir_and_split-IsComplete target tree 5 zip_parts (λ path items. refl) zip_split
