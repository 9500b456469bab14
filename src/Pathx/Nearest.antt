-- ===== src/Pathx/Nearest.antt =====
-- The two searches for a go.mod find the same directory, the nearest one.
use sub_sdk.Base.{◌≡◌, Bool, true, false, Option, some, List, [], ◌∷◌, ◌++◌}
use sub_sdk.Go.Text.{Bytes}
use sub_sdk.Pathx.{Dir}

-- The names of a list in reverse before others.
abbrev pub rev_onto : List Bytes → List Bytes → List Bytes
rev_onto [] below = below
rev_onto (n ∷ names) below = rev_onto names (n ∷ below)

module _ (has_go_mod : Dir → Bool) where
  -- None of the directories from the first one up to below `d` holds the file.
  abbrev pub NoneBelow : List Bytes → Dir → Type 0
  NoneBelow [] d = Unit
  NoneBelow (n ∷ names) d = (has_go_mod (n ∷ (names ++ d)) ≡ false) × NoneBelow names d

  -- What a search that finds the file says.
  abbrev Found : Option (List Bytes) → Option Dir → Dir → List Bytes → Type 0
  Found relative project dir below =
      (names : List Bytes) × (d : Dir) × (dir ≡ names ++ d)
      × (has_go_mod d ≡ true)
      × NoneBelow names d
      × (relative ≡ some (rev_onto names below))
      × (project ≡ some d)
