-- ===== src/Pathx/Files/Examples.antt =====
-- Names, homes and files of a few paths.
use sub_sdk.Base.{
  ◌≡◌, refl, true, false, Option, none, some, [], ◌∷◌, eqb, done, panic, out_of_range,
}
use sub_sdk.Go.Text.{Bytes, bytes}
use sub_sdk.Go.Split.{split, join}
use sub_sdk.Go.Index.{index, has_prefix}
use sub_sdk.Go.Path.{
  ext, clean, join_path, dir_path, is_same, pop, push, push_all, reverse_onto, print_path,
}
use sub_sdk.Filex.{got, failed, no_open, whole, walk}
use sub_sdk.Filex.Sample.{notes, tree}
use sub_sdk.Filex.Files.{
  Stat, dir_there, file_there, not_there, Calls, FileCall, mkdir_all, create_file, write_file,
  chmod, rename, remove,
}
use sub_sdk.Pathx.Files.{
  join_packages, file_name_without_ext, after_parent, path_from_go_src, file_exists, is_not_exist,
  mkdir_if_not_exist, create_if_not_exist, remove_if_exist, create_with_content, try_call,
  copy_rest, copy_opened, copy_path, move_away, default_goctl_home, goctl_home_of, get_goctl_home,
  get_home_dir, count_visit, count_files,
}
use sub_sdk.Pathx.Files.Names.{path_from_go_src_lem}

abbrev there : Stat → Calls → Bytes → Stat
there s calls path = s

abbrev accept : Calls → FileCall → Option Bytes
accept calls c = none

names :
    (file_name_without_ext (bytes "d.x/a.tar.gz") ≡ bytes "d.x/a.tar")
    × (file_name_without_ext (bytes "d.x/a") ≡ bytes "d.x/a")
    × (join_packages (bytes "a" ∷ bytes "b" ∷ []) ≡ bytes "a/b")
unfolding file_name_without_ext ext split eqb join_packages join
names = (refl, refl, refl)

path_from_go_src_lem_example :
    (path_from_go_src (bytes "/go/src/p") (bytes "/go/src/p") ≡ panic out_of_range)
    × (path_from_go_src (bytes "/go/src/p/x") (bytes "/go/src/p") ≡ done (some (bytes "x")))
path_from_go_src_lem_example = path_from_go_src_lem 47 (bytes "go/src/p") (bytes "x")

elsewhere : path_from_go_src (bytes "/w") (bytes "/go/src/p") ≡ done none
unfolding path_from_go_src after_parent index has_prefix
elsewhere = refl

count_runs : count_files tree ≡ (3, got tt)
unfolding count_files count_visit walk
count_runs = refl

files :
    (create_if_not_exist (there file_there) accept (bytes "a") []
      ≡ ([], failed (bytes "a already exist")))
    × (create_if_not_exist (there not_there) accept (bytes "a") []
        ≡ (create_file (bytes "a") ∷ [], got tt))
    × (remove_if_exist (there not_there) accept (bytes "a") [] ≡ ([], got tt))
    × (remove_if_exist (there file_there) accept (bytes "a") [] ≡ (remove (bytes "a") ∷ [], got tt))
    × (create_with_content (there file_there) accept (bytes "a") notes false [] ≡ ([], got tt))
    × (create_with_content (there file_there) accept (bytes "a") notes true []
        ≡ (create_file (bytes "a") ∷ write_file (bytes "a") notes ∷ [], got tt))
unfolding create_if_not_exist remove_if_exist create_with_content file_exists is_not_exist
files = (refl, refl, refl, refl, refl, refl)

copies :
    (copy_path (there not_there) accept (whole notes) (bytes "d/a") [] ≡ (
      mkdir_all (bytes "d") 0o777
          ∷ create_file (bytes "d/a")
          ∷ chmod (bytes "d/a") 0o777
          ∷ write_file (bytes "d/a") notes
          ∷ [],
      got tt,
    ))
    × (copy_path (there not_there) accept (no_open (bytes "denied")) (bytes "d/a") []
        ≡ ([], failed (bytes "denied")))
unfolding copy_path copy_opened copy_rest try_call mkdir_if_not_exist is_not_exist dir_path clean
    split join eqb is_same pop push push_all reverse_onto print_path
copies = (refl, refl)

-- A file in the place of the home is moved away; it is still there for the next Stat.
homes :
    (get_goctl_home (there file_there) accept (bytes "/g") (failed (bytes "e")) []
      ≡ (rename (bytes "/g") (bytes "/g.old") ∷ [], got (bytes "/g")))
    × (get_home_dir (there dir_there) accept (bytes "cache") [] (got (bytes "/h")) []
        ≡ ([], got (bytes "/h/.goctl/cache")))
    × (get_home_dir (there dir_there) accept (bytes "cache") [] (failed (bytes "e")) []
        ≡ ([], failed (bytes "e")))
unfolding get_home_dir get_goctl_home goctl_home_of default_goctl_home move_away try_call
    mkdir_if_not_exist is_not_exist join_path clean split join eqb is_same pop push push_all
    reverse_onto print_path
homes = (refl, refl, refl)
