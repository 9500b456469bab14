-- ===== src/Pathx/Examples.antt =====
-- /home/project/pkg, with a go.mod in /home/project.
use sub_sdk.Base.{◌≡◌, refl, Bool, some, [], ◌∷◌, eqb, ◌&&◌, false}
use sub_sdk.Go.Text.{bytes}
use sub_sdk.Pathx.{Dir, find_go_mod_path, find_project_path}

abbrev in_project : Dir → Bool
in_project (n ∷ m ∷ []) = eqb n (bytes "project") && eqb m (bytes "home")
in_project _ = false

abbrev pkg : Dir
pkg = bytes "pkg" ∷ bytes "project" ∷ bytes "home" ∷ []

project_found :
    (find_go_mod_path in_project pkg ≡ some (bytes "pkg" ∷ []))
    × (find_project_path in_project pkg ≡ some (bytes "project" ∷ bytes "home" ∷ []))
unfolding find_go_mod_path find_project_path eqb
project_found = (refl, refl)
