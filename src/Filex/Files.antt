-- ===== src/Filex/Files.antt =====
-- filex/file.go: tests of existence, making of directories, copies and moves, against a file system that answers.
mod Examples
pub mod Copied
use sub_sdk.Base.{
  ℕ, Bool, true, false, Option, none, some, List, [], ◌∷◌, ◌++◌, if◌then◌else◌, not, map,
}
use sub_sdk.Go.Text.{Bytes, bytes}
use sub_sdk.Go.Path.{join_path, dir_path}
use sub_sdk.Filex.{
  Res, got, failed, Step, pure, fail, ◌>>=◌, ◌>>◌, Read, no_open, cut, whole, Node, Entries, file,
  dir, sealed, link, special, broken, end, entry,
}
use sub_sdk.Filex.Archive.{answer}

-- What os.Stat answers: a directory, something else, an error of a missing path, one of a permission,
-- another error.
pub data Stat : Type 0 where
  dir_there file_there not_there : Stat
  not_allowed stat_failed : Bytes → Stat

unfoldable pub check_exist : Stat → Bool
check_exist not_there = false
check_exist _ = true

-- The answer, and the error beside it.
unfoldable pub check_path_exists : Stat → Bool × Option Bytes
check_path_exists dir_there = (true, none)
check_path_exists file_there = (false, some (bytes "存在同名文件"))
check_path_exists _ = (false, none)

-- With what os.Lstat answers.
file_exist : Stat → Bool
file_exist dir_there = false
file_exist file_there = true
file_exist not_there = false
file_exist _ = true

file_exist_and_permission : Stat → Bool
file_exist_and_permission not_there = false
file_exist_and_permission (not_allowed e) = false
file_exist_and_permission _ = true

-- What is asked of the file system.
pub data FileCall : Type 0 where
  mkdir_all : Bytes → ℕ → FileCall
  create_file : Bytes → FileCall
  write_file : Bytes → Bytes → FileCall
  chmod : Bytes → ℕ → FileCall
  rename : Bytes → Bytes → FileCall
  remove : Bytes → FileCall
  remove_all : Bytes → FileCall

abbrev pub Calls : Type 0
Calls = List FileCall

abbrev pub call : (Calls → FileCall → Option Bytes) → FileCall → Step Calls Unit
call refuses c calls = elim (refuses calls c) [
  | some e ↦ (calls, failed e)
  | none ↦ (calls ++ c ∷ [], got tt)
]

-- The error of a Stat, if it is one.
abbrev pub stat_error : Stat → Option Bytes
stat_error dir_there = none
stat_error file_there = none
stat_error not_there = some (bytes "file does not exist")
stat_error (not_allowed e) = some e
stat_error (stat_failed e) = some e

module _ (stat : Calls → Bytes → Stat) (refuses : Calls → FileCall → Option Bytes) where
  unfoldable pub mk_dir : Bytes → Step Calls Unit
  mk_dir path = call refuses (mkdir_all path 0o777)

  -- The body of the loop of CreateDir.
  create_one : Bytes → Bool × Option Bytes → Step Calls Unit
  unfolding mk_dir
  create_one path (exist, some e) = fail e
  create_one path (true, none) = pure tt
  create_one path (false, none) = mk_dir path

  unfoldable pub create_dir : List Bytes → Step Calls Unit
  unfolding create_one check_path_exists
  create_dir [] = pure tt
  create_dir (path ∷ paths) =
      (λ calls. create_one path (check_path_exists (stat calls path)) calls) >> create_dir paths

  unfoldable pub is_not_exist_mk_dir : Bytes → Step Calls Unit
  unfolding mk_dir check_path_exists
  is_not_exist_mk_dir path calls =
      (if (check_path_exists (stat calls path)).0 then pure tt else mk_dir path) calls

  -- os.Open
  abbrev open_source : Read → Step Calls Unit
  open_source (no_open e) = fail e
  open_source _ = pure tt

  -- io.Copy
  abbrev copy_source : Bytes → Read → Step Calls Unit
  copy_source path (no_open e) = fail e
  copy_source path (cut bs e) = do call refuses (write_file path bs); fail e
  copy_source path (whole bs) = call refuses (write_file path bs)

  -- The source with what opening it reads, and what a Stat of it answers at the end: its mode.
  unfoldable pub copy_file : Read → Res ℕ → Bytes → Step Calls Unit
  unfolding is_not_exist_mk_dir
  copy_file r (got mode) path = do
    open_source r
    is_not_exist_mk_dir (dir_path path)
    call refuses (create_file path)
    copy_source path r
    call refuses (chmod path mode)
  copy_file r (failed e) path = do
    open_source r
    is_not_exist_mk_dir (dir_path path)
    call refuses (create_file path)
    copy_source path r
    fail e

  -- The source as a tree. A link is copied as what it leads to, with the mode that its target has.
  module _ (target_mode : Bytes → ℕ) where
    unfoldable mutual
      unfolding copy_file

      pub copy_dir : Bytes → Node → Bytes → Step Calls Unit
      copy_dir source (dir mode es) path =
          call refuses (mkdir_all path mode) >> copy_entries source es path
      copy_dir source (sealed mode e) path = do call refuses (mkdir_all path mode); fail e
      copy_dir source (broken e) path = fail e
      copy_dir source (file mode r) path = fail (source ++ bytes " 不是一个目录")
      copy_dir source (link mode t r) path = fail (source ++ bytes " 不是一个目录")
      copy_dir source (special mode h r) path = fail (source ++ bytes " 不是一个目录")

      pub copy_entries : Bytes → Entries → Bytes → Step Calls Unit
      copy_entries source end path = pure tt
      copy_entries source (entry name (dir mode es) rest) path = do
        copy_dir (join_path source name) (dir mode es) (join_path path name)
        copy_entries source rest path
      copy_entries source (entry name (sealed mode e) rest) path =
          copy_dir (join_path source name) (sealed mode e) (join_path path name)
      copy_entries source (entry name (file mode r) rest) path = do
        copy_file r (got mode) (join_path path name)
        copy_entries source rest path
      copy_entries source (entry name (link mode t r) rest) path = do
        copy_file r (got (target_mode (join_path source name))) (join_path path name)
        copy_entries source rest path
      copy_entries source (entry name (special mode h r) rest) path = do
        copy_file r (got mode) (join_path path name)
        copy_entries source rest path
      copy_entries source (entry name (broken e) rest) path = fail e

  de_l_file : Bytes → Step Calls Unit
  de_l_file path = call refuses (remove_all path)

  -- The label Redirect of FileMove: whether it is the second time, and the directory.
  redirect_again : Bytes → Step Calls Unit
  redirect_again path calls = elim (stat_error (stat calls path)) [
    | none ↦ (calls, got tt)
    | some e ↦ call refuses (mkdir_all path 0o755) calls
  ]

  redirect : Bytes → Step Calls Unit
  unfolding redirect_again
  redirect path calls = elim (stat_error (stat calls path)) [
    | none ↦ (calls, got tt)
    | some e ↦ (call refuses (mkdir_all path 0o755) >> redirect_again path) calls
  ]

  -- FileMove, with what filepath.Abs gives.
  file_move : (Bytes → Res Bytes) → Bytes → Bytes → Step Calls Unit
  unfolding redirect
  file_move abs source [] = pure tt
  file_move abs source (c ∷ dst) = elim (abs source) [
    | failed e ↦ fail e
    | got from ↦ elim (abs (c ∷ dst)) [
      | failed e ↦ fail e
      | got to ↦ redirect (dir_path to) >> call refuses (rename from to)
    ]
  ]
