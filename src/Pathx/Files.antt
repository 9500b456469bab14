-- ===== src/Pathx/Files.antt =====
-- pathx/file.go, and the first functions of pathx/path.go: names, homes and files, against a file system that answers.
mod Examples
pub mod Names
pub mod Count
use sub_sdk.Base.{
  ℕ, ◌+◌, ◌-◌, Bool, true, false, Option, none, some, List, [], ◌∷◌, ◌++◌, if◌then◌else◌, length,
  take, drop, eqb, leb, ◌&&◌, not, Run, done, panic, out_of_range, ltb,
}
use sub_sdk.Go.Text.{Bytes, bytes}
use sub_sdk.Go.Split.{join}
use sub_sdk.Go.Index.{index}
use sub_sdk.Go.Path.{ext, join_path, dir_path}
use sub_sdk.Filex.{
  Res, got, failed, Step, pure, fail, ◌>>=◌, ◌>>◌, Read, no_open, cut, whole, Node, is_dir,
  walk_error, walk,
}
use sub_sdk.Filex.Archive.{answer}
use sub_sdk.Filex.Extract.{has_suffix}
use sub_sdk.Filex.Files.{
  Stat, dir_there, file_there, not_there, not_allowed, stat_failed, stat_error, Calls, FileCall,
  mkdir_all, create_file, write_file, chmod, rename, remove, call,
}

-- strings.Join(pkgs, "/")
join_packages : List Bytes → Bytes
unfolding join
join_packages pkgs = join (bytes "/") pkgs

-- strings.TrimSuffix(file, filepath.Ext(file))
unfoldable pub file_name_without_ext : Bytes → Bytes
unfolding ext
file_name_without_ext file =
    if has_suffix file (ext file) then take (length file - length (ext file)) file else file

-- dir[len(parent)+1:]
after_parent : Bytes → Bytes → Run (Option Bytes)
after_parent dir parent =
    if ltb (length dir) (length parent + 1)
    then panic out_of_range
    else done (some (drop (length parent + 1) dir))

-- PathFromGoSrc in a working directory, with path.Join(gopath, "src", projName); `none` is the error.
unfoldable pub path_from_go_src : Bytes → Bytes → Run (Option Bytes)
unfolding index after_parent
path_from_go_src dir parent = elim (index parent dir) [
  | none ↦ done none
  | some pos ↦ after_parent dir parent
]

file_exists : Stat → Bool
file_exists dir_there = true
file_exists file_there = true
file_exists _ = false

is_not_exist : Stat → Bool
is_not_exist not_there = true
is_not_exist _ = false

module _ (stat : Calls → Bytes → Stat) (refuses : Calls → FileCall → Option Bytes) where
  mkdir_if_not_exist : Bytes → Step Calls Unit
  unfolding is_not_exist
  mkdir_if_not_exist [] calls = (calls, got tt)
  mkdir_if_not_exist (c ∷ dir) calls =
      (if is_not_exist (stat calls (c ∷ dir))
          then call refuses (mkdir_all (c ∷ dir) 0o777)
          else pure tt)
        calls

  create_if_not_exist : Bytes → Step Calls Unit
  unfolding is_not_exist
  create_if_not_exist file calls =
      (if is_not_exist (stat calls file)
          then call refuses (create_file file)
          else fail (file ++ bytes " already exist"))
        calls

  -- RemoveOrQuit does the same after a question.
  remove_if_exist : Bytes → Step Calls Unit
  unfolding file_exists
  remove_if_exist file calls =
      (if file_exists (stat calls file) then call refuses (remove file) else pure tt) calls

  create_with_content : Bytes → Bytes → Bool → Step Calls Unit
  unfolding file_exists
  create_with_content file content force calls =
      (if file_exists (stat calls file) && not force
          then pure tt
          else call refuses (create_file file) >> call refuses (write_file file content))
        calls

  -- The error of Chmod is dropped.
  try_call : FileCall → Step Calls Unit
  try_call c calls = ((call refuses c calls).0, got tt)

  -- What is read from the source of Copy.
  copy_rest : Bytes → Read → Step Calls Unit
  copy_rest dest (no_open e) = fail e
  copy_rest dest (cut bs e) = do call refuses (write_file dest bs); fail e
  copy_rest dest (whole bs) = call refuses (write_file dest bs)

  copy_opened : Read → Bytes → Step Calls Unit
  unfolding mkdir_if_not_exist try_call copy_rest
  copy_opened r dest = do
    mkdir_if_not_exist (dir_path dest)
    call refuses (create_file dest)
    try_call (chmod dest 0o777)
    copy_rest dest r

  copy_path : Read → Bytes → Step Calls Unit
  unfolding copy_opened
  copy_path (no_open e) dest = fail e
  copy_path (cut bs e) dest = copy_opened (cut bs e) dest
  copy_path (whole bs) dest = copy_opened (whole bs) dest

  -- The deferred part of GetGoctlHome: what lies at the home and is no directory is moved away.
  move_away : Bytes → Stat → Step Calls Unit
  unfolding try_call mkdir_if_not_exist
  move_away home file_there calls =
      let (moved, r) = try_call (rename home (home ++ bytes ".old")) calls in
      ((mkdir_if_not_exist home moved).0, got tt)
  move_away home _ calls = (calls, got tt)

  -- GetDefaultGoctlHome, with what os.UserHomeDir gives
  default_goctl_home : Res Bytes → Res Bytes
  default_goctl_home (got home) = got (join_path home (bytes ".goctl"))
  default_goctl_home (failed e) = failed e

  goctl_home_of : Res Bytes → Step Calls Bytes
  unfolding move_away
  goctl_home_of (failed e) = fail e
  goctl_home_of (got home) = (λ calls. move_away home (stat calls home) calls) >> pure home

  -- GetGoctlHome, with the home that was registered.
  get_goctl_home : Bytes → Res Bytes → Step Calls Bytes
  unfolding goctl_home_of default_goctl_home
  get_goctl_home [] user_home = goctl_home_of (default_goctl_home user_home)
  get_goctl_home (c ∷ home) user_home = goctl_home_of (got (c ∷ home))

  -- GetGitHome, GetAutoCompleteHome and GetCacheDir, by the name of the directory
  get_home_dir : Bytes → Bytes → Res Bytes → Step Calls Bytes
  unfolding get_goctl_home
  get_home_dir name registered user_home = do
    home ← get_goctl_home registered user_home
    pure (join_path home name)

-- The function that CountFiles walks with.
count_visit : List Bytes → Node → Step ℕ Unit
count_visit names node = do
  answer (walk_error node)
  λ count. ((if is_dir node then count else count + 1), got tt)

-- The count and the error.
unfoldable pub count_files : Node → ℕ × Res Unit
unfolding count_visit walk
count_files tree = walk count_visit [] tree 0
