-- ===== src/Filex/Files/Examples.antt =====
-- A folder copied, directories made, a file moved.
use sub_sdk.Base.{◌≡◌, refl, true, false, none, Option, [], ◌∷◌, eqb}
use sub_sdk.Go.Text.{Bytes, bytes}
use sub_sdk.Go.Split.{split, join}
use sub_sdk.Go.Path.{
  clean, join_path, dir_path, is_same, pop, push, push_all, reverse_onto, print_path,
}
use sub_sdk.Filex.{got, failed}
use sub_sdk.Filex.Sample.{notes, tree, locked_tree}
use sub_sdk.Filex.Files.{
  Stat, dir_there, file_there, not_there, not_allowed, stat_failed, check_exist, check_path_exists,
  file_exist, file_exist_and_permission, Calls, FileCall, mkdir_all, create_file, write_file, chmod,
  rename, remove_all, de_l_file, mk_dir, create_one, create_dir, is_not_exist_mk_dir, copy_file,
  copy_dir, redirect_again, redirect, file_move,
}
use sub_sdk.Filex.Files.Copied.{writes, contents, IsCopyable, copy_dir_complete}

abbrev there : Calls → Bytes → Stat
there calls path = dir_there

abbrev absent : Calls → Bytes → Stat
absent calls path = not_there

abbrev accept : Calls → FileCall → Option Bytes
accept calls c = none

abbrev copied : Calls
copied =
    mkdir_all (bytes "/d") 493
    ∷ create_file (bytes "/d/a")
    ∷ write_file (bytes "/d/a") notes
    ∷ chmod (bytes "/d/a") 420
    ∷ create_file (bytes "/d/l")
    ∷ write_file (bytes "/d/l") notes
    ∷ chmod (bytes "/d/l") 420
    ∷ mkdir_all (bytes "/d/s") 493
    ∷ create_file (bytes "/d/s/b")
    ∷ write_file (bytes "/d/s/b") []
    ∷ chmod (bytes "/d/s/b") 384
    ∷ []

copied_runs :
    copy_dir there accept (λ path. 420) (bytes "/w") tree (bytes "/d") [] ≡ (copied, got tt)
unfolding copy_dir copy_file is_not_exist_mk_dir mk_dir check_path_exists join_path dir_path clean
    split join eqb is_same pop push push_all reverse_onto print_path
copied_runs = refl

copy_dir_complete_example : (writes copied ≡ contents (bytes "/d") tree) × IsCopyable tree
copy_dir_complete_example =
    copy_dir_complete there accept (λ path. 420) (bytes "/w") tree (bytes "/d") copied copied_runs

denied :
    (copy_dir there accept (λ path. 420) (bytes "/w") locked_tree (bytes "/d") []).1
    ≡ failed (bytes "denied")
unfolding copy_dir copy_file is_not_exist_mk_dir mk_dir check_path_exists join_path dir_path clean
    split join eqb is_same pop push push_all reverse_onto print_path
denied = refl

made :
    (create_dir absent accept (bytes "/a" ∷ bytes "/b" ∷ []) []
      ≡ (mkdir_all (bytes "/a") 0o777 ∷ mkdir_all (bytes "/b") 0o777 ∷ [], got tt))
    × (create_dir (λ calls path. file_there) accept (bytes "/a" ∷ []) []
        ≡ ([], failed (bytes "存在同名文件")))
    × (is_not_exist_mk_dir there accept (bytes "/a") [] ≡ ([], got tt))
unfolding create_dir create_one is_not_exist_mk_dir mk_dir check_path_exists
made = (refl, refl, refl)

-- With no such folder it is made, and made again if it is still not there.
moved :
    (file_move there accept (λ path. got path) (bytes "/a") (bytes "/d/b") []
      ≡ (rename (bytes "/a") (bytes "/d/b") ∷ [], got tt))
    × (file_move absent accept (λ path. got path) (bytes "/a") (bytes "/d/b") [] ≡ (
      mkdir_all (bytes "/d") 0o755
          ∷ mkdir_all (bytes "/d") 0o755
          ∷ rename (bytes "/a") (bytes "/d/b")
          ∷ [],
      got tt,
    ))
    × (file_move absent accept (λ path. failed (bytes "cwd")) (bytes "/a") [] [] ≡ ([], got tt))
unfolding file_move redirect redirect_again dir_path clean split join eqb is_same pop push push_all
    reverse_onto print_path
moved = (refl, refl, refl)

-- A path that may not be looked at exists for one test, and not for the other.
existence :
    (check_exist (not_allowed (bytes "e")) ≡ true)
    × (file_exist (not_allowed (bytes "e")) ≡ true)
    × (file_exist_and_permission (not_allowed (bytes "e")) ≡ false)
    × (file_exist_and_permission (stat_failed (bytes "e")) ≡ true)
unfolding check_exist file_exist file_exist_and_permission
existence = (refl, refl, refl, refl)

deleted : de_l_file there accept (bytes "/a") [] ≡ (remove_all (bytes "/a") ∷ [], got tt)
unfolding de_l_file
deleted = refl
