-- ===== src/Pathx.antt =====
-- pathx/path.go: the search for a go.mod. A directory is the list of its names, the last one first, and the root
-- is the empty list; whether a directory holds the file is a parameter.
pub mod Nearest
pub mod Files
mod Examples
use sub_sdk.Base.{Bool, true, false, Option, none, some, List, [], ◌∷◌, if◌then◌else◌}
use sub_sdk.Go.Text.{Bytes}

abbrev pub Dir : Type 0
Dir = List Bytes

is_root : Dir → Bool
is_root [] = true
is_root (n ∷ up) = false

module _ (has_go_mod : Dir → Bool) where
  -- The loop of FindGoModPath: `below` are the names from the directory down to the first one.
  find_go_mod_from : Dir → List Bytes → Option (List Bytes)
  unfolding is_root
  find_go_mod_from [] below = if has_go_mod [] then some below else none
  find_go_mod_from (n ∷ up) below =
      let above = find_go_mod_from up (n ∷ below) in
      if has_go_mod (n ∷ up) then some below else if is_root up then none else above

  -- The relative path as its names.
  pub find_go_mod_path : Dir → Option (List Bytes)
  unfolding find_go_mod_from
  find_go_mod_path dir = find_go_mod_from dir []

  pub find_project_path : Dir → Option Dir
  unfolding is_root
  find_project_path [] = if has_go_mod [] then some [] else none
  find_project_path (n ∷ up) =
      let above = find_project_path up in
      if has_go_mod (n ∷ up) then some (n ∷ up) else if is_root up then none else above
