-- ===== src/Pathx/Files/Count.antt =====
-- pathx/file.go CountFiles: the count of a walk.
use sub_sdk.Base.{ℕ, ◌+◌, ◌≡◌, ◌∙◌, ap, refl, arith, [], ◌∷◌, ◌++◌}
use sub_sdk.Filex.{
  got, Node, Entries, file, dir, sealed, link, special, broken, end, entry, Names, walk,
  walk_entries,
}
use sub_sdk.Filex.Walk.{after}
use sub_sdk.Pathx.Files.{count_visit, count_files}

-- The paths of a tree that are no directory.
abbrev mutual
  pub files_in : Node → ℕ
  files_in (dir mode es) = files_below es
  files_in (sealed mode e) = 0
  files_in _ = 1

  pub files_below : Entries → ℕ
  files_below end = 0
  files_below (entry name node rest) = files_in node + files_below rest

-- Every directory and every path of a tree can be looked at.
abbrev mutual
  pub IsVisible : Node → Type 0
  IsVisible (dir mode es) = AreVisible es
  IsVisible (sealed mode e) = ⊥
  IsVisible (broken e) = ⊥
  IsVisible _ = Unit

  pub AreVisible : Entries → Type 0
  AreVisible end = Unit
  AreVisible (entry name node rest) = IsVisible node × AreVisible rest

mutual
  unfolding walk count_visit

  walk-counts :
      (names : Names) (node : Node) (n : ℕ)
      → IsVisible node
      → walk count_visit names node n ≡ (n + files_in node, got tt)
  walk-counts names (file mode r) n v = refl
  walk-counts names (dir mode es) n v = walk_entries-counts names es n v
  walk-counts names (sealed mode e) n v = absurd v
  walk-counts names (link mode t r) n v = refl
  walk-counts names (special mode e r) n v = refl
  walk-counts names (broken e) n v = absurd v

  walk_entries-counts :
      (names : Names) (es : Entries) (n : ℕ)
      → AreVisible es
      → walk_entries count_visit names es n ≡ (n + files_below es, got tt)
  walk_entries-counts names end n v = ground arith
  walk_entries-counts names (entry name node rest) n v =
      let inner = names ++ name ∷ [] in
      let total : ◌≡◌ {A = ℕ} ((n + files_in node) + files_below rest)
          (n + (files_in node + files_below rest)) =
        omega arith in
      ap (after (λ _. walk_entries count_visit names rest)) (walk-counts inner node n v.0)
      ∙ walk_entries-counts names rest (n + files_in node) v.1
      ∙ ap (λ k. (k, got tt)) total

-- If every directory and every path of a tree can be looked at, CountFiles returns, without an error,
-- the number of the paths in it that are no directory; the path that is counted is one of them.
pub count_files_lem : (tree : Node) → IsVisible tree → count_files tree ≡ (files_in tree, got tt)
unfolding count_files
count_files_lem tree v = walk-counts [] tree 0 v ∙ ap (λ k. (k, got tt)) (omega arith)
