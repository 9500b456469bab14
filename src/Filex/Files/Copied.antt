-- ===== src/Filex/Files/Copied.antt =====
-- filex/file.go CopyDir: what is written when it returns no error.
use sub_sdk.Base.{
  ℕ, ◌≡◌, ◌∙◌, ap, refl, sym, Bool, true, false, Option, List, [], ◌∷◌, ◌++◌, append_assoc,
  append-nil, arith, if◌then◌else◌,
}
use sub_sdk.Go.Text.{Bytes}
use sub_sdk.Go.Path.{join_path, dir_path}
use sub_sdk.Filex.{
  Res, got, failed, pure, ◌>>◌, Read, no_open, cut, whole, Node, Entries, file, dir, sealed, link,
  special, broken, end, entry,
}
use sub_sdk.Filex.Walk.{>>=-eq-got}
use sub_sdk.Filex.Files.{
  Stat, FileCall, mkdir_all, create_file, write_file, chmod, rename, remove, remove_all, Calls,
  call, mk_dir, check_path_exists, is_not_exist_mk_dir, copy_file, copy_dir, copy_entries,
}

-- The contents that were written, with their paths.
unfoldable pub writes : Calls → List (Bytes × Bytes)
writes [] = []
writes (write_file path bs ∷ calls) = (path, bs) ∷ writes calls
writes (mkdir_all path mode ∷ calls) = writes calls
writes (create_file path ∷ calls) = writes calls
writes (chmod path mode ∷ calls) = writes calls
writes (rename a b ∷ calls) = writes calls
writes (remove path ∷ calls) = writes calls
writes (remove_all path ∷ calls) = writes calls

writes-append : (a b : Calls) → writes (a ++ b) ≡ writes a ++ writes b
unfolding writes
writes-append [] b = refl
writes-append (write_file path bs ∷ a) b = ap (λ l. (path, bs) ∷ l) (writes-append a b)
writes-append (mkdir_all path mode ∷ a) b = writes-append a b
writes-append (create_file path ∷ a) b = writes-append a b
writes-append (chmod path mode ∷ a) b = writes-append a b
writes-append (rename x y ∷ a) b = writes-append a b
writes-append (remove path ∷ a) b = writes-append a b
writes-append (remove_all path ∷ a) b = writes-append a b

abbrev pub read_to : Bytes → Read → List (Bytes × Bytes)
read_to path (whole bs) = (path, bs) ∷ []
read_to path r = []

-- The files of a tree, each at its place under a path.
unfoldable mutual
  pub contents : Bytes → Node → List (Bytes × Bytes)
  contents path (dir mode es) = contents_of path es
  contents path (file mode r) = read_to path r
  contents path (link mode t r) = read_to path r
  contents path (special mode h r) = read_to path r
  contents path _ = []

  pub contents_of : Bytes → Entries → List (Bytes × Bytes)
  contents_of path end = []
  contents_of path (entry name node rest) =
      contents (join_path path name) node ++ contents_of path rest

-- All of a tree can be read: its directories, and its files, links and special files to the end.
abbrev pub IsCopied : Read → Type 0
IsCopied (whole bs) = Unit
IsCopied _ = ⊥

abbrev mutual
  pub IsCopyable : Node → Type 0
  IsCopyable (dir mode es) = AreCopyable es
  IsCopyable (sealed mode e) = ⊥
  IsCopyable (broken e) = ⊥
  IsCopyable (file mode r) = IsCopied r
  IsCopyable (link mode t r) = IsCopied r
  IsCopyable (special mode h r) = IsCopied r

  pub AreCopyable : Entries → Type 0
  AreCopyable end = Unit
  AreCopyable (entry name node rest) = IsCopyable node × AreCopyable rest

module _ (stat : Calls → Bytes → Stat) (refuses : Calls → FileCall → Option Bytes) where
  call-got :
      (c : FileCall) (s t : Calls)
      → call refuses c s ≡ (t, got tt)
      → writes t ≡ writes s ++ writes (c ∷ [])
  call-got c s t h =
      let e : t ≡ s ++ c ∷ [] = ground arith in ap writes e ∙ writes-append s (c ∷ [])

  made_if :
      (there : Bool) (path : Bytes) (s t : Calls)
      → (if there then pure tt else mk_dir stat refuses path) s ≡ (t, got tt)
      → writes t ≡ writes s
  unfolding mk_dir writes
  made_if true path s t h = let e : t ≡ s = ground arith in ap writes e
  made_if false path s t h = call-got (mkdir_all path 0o777) s t h ∙ append-nil (writes s)

  made-got :
      (path : Bytes) (s t : Calls)
      → is_not_exist_mk_dir stat refuses path s ≡ (t, got tt)
      → writes t ≡ writes s
  unfolding is_not_exist_mk_dir
  made-got path s t h = made_if (check_path_exists (stat s path)).0 path s t h

  copy_file-got :
      (r : Read) (m : Res ℕ) (path : Bytes) (s t : Calls)
      → copy_file stat refuses r m path s ≡ (t, got tt)
      → (writes t ≡ writes s ++ read_to path r) × IsCopied r
  unfolding copy_file writes
  copy_file-got (no_open e) (got m) path s t h = ground arith
  copy_file-got (no_open e) (failed m) path s t h = ground arith
  copy_file-got (cut bs e) (got m) path s t h = ground arith
  copy_file-got (cut bs e) (failed m) path s t h = ground arith
  copy_file-got (whole bs) (got m) path s t h =
      let make_it = is_not_exist_mk_dir stat refuses (dir_path path) in
      let create = call refuses (create_file path) in
      let write = call refuses (write_file path bs) in
      let mode = call refuses (chmod path m) in
      let (a, h1, r1) = >>=-eq-got make_it (λ _. create >> (write >> mode)) s t h in
      let (b, h2, r2) = >>=-eq-got create (λ _. write >> mode) a t r1 in
      let (c, h3, h4) = >>=-eq-got write (λ _. mode) b t r2 in
      let e1 = made-got (dir_path path) s a h1 in
      let e2 = call-got (create_file path) a b h2 ∙ append-nil (writes a) ∙ e1 in
      let e3 = call-got (write_file path bs) b c h3 ∙ ap (λ l. l ++ (path, bs) ∷ []) e2 in
      (call-got (chmod path m) c t h4 ∙ append-nil (writes c) ∙ e3, tt)
  copy_file-got (whole bs) (failed m) path s t h = ground arith

  module _ (target_mode : Bytes → ℕ) where
    writes_both :
        (s u t : Calls) (a b : List (Bytes × Bytes))
        → writes u ≡ writes s ++ a
        → writes t ≡ writes u ++ b
        → writes t ≡ writes s ++ (a ++ b)
    writes_both s u t a b e1 e2 = e2 ∙ ap (λ l. l ++ b) e1 ∙ append_assoc (writes s) a b

    mutual
      unfolding copy_dir contents writes

      copy_dir-got :
          (source : Bytes) (node : Node) (path : Bytes) (s t : Calls)
          → copy_dir stat refuses target_mode source node path s ≡ (t, got tt)
          → (writes t ≡ writes s ++ contents path node) × IsCopyable node
      copy_dir-got source (dir mode es) path s t h =
          let (u, h1, h2) =
            >>=-eq-got (call refuses (mkdir_all path mode))
              (λ _. copy_entries stat refuses target_mode source es path) s t h in
          let made = call-got (mkdir_all path mode) s u h1 ∙ append-nil (writes s) in
          let (e, c) = copy_entries-got source es path u t h2 in
          (e ∙ ap (λ l. l ++ contents_of path es) made, c)
      copy_dir-got source (sealed mode e) path s t h = ground arith
      copy_dir-got source (broken e) path s t h = ground arith
      copy_dir-got source (file mode r) path s t h = ground arith
      copy_dir-got source (link mode g r) path s t h = ground arith
      copy_dir-got source (special mode g r) path s t h = ground arith

      copy_entries-got :
          (source : Bytes) (es : Entries) (path : Bytes) (s t : Calls)
          → copy_entries stat refuses target_mode source es path s ≡ (t, got tt)
          → (writes t ≡ writes s ++ contents_of path es) × AreCopyable es
      copy_entries-got source end path s t h =
          let e : t ≡ s = ground arith in (ap writes e ∙ sym (append-nil (writes s)), tt)
      copy_entries-got source (entry name (dir mode es) rest) path s t h =
          let inner =
            copy_dir stat refuses target_mode (join_path source name) (dir mode es)
              (join_path path name) in
          let (u, h1, h2) =
            >>=-eq-got inner (λ _. copy_entries stat refuses target_mode source rest path) s t h in
          let (e1, c1) =
            copy_dir-got (join_path source name) (dir mode es) (join_path path name) s u h1 in
          let (e2, c2) = copy_entries-got source rest path u t h2 in
          (writes_both s u t _ _ e1 e2, (c1, c2))
      copy_entries-got source (entry name (file mode r) rest) path s t h =
          let one = copy_file stat refuses r (got mode) (join_path path name) in
          let (u, h1, h2) =
            >>=-eq-got one (λ _. copy_entries stat refuses target_mode source rest path) s t h in
          let (e1, c1) = copy_file-got r (got mode) (join_path path name) s u h1 in
          let (e2, c2) = copy_entries-got source rest path u t h2 in
          (writes_both s u t (read_to (join_path path name) r) _ e1 e2, (c1, c2))
      copy_entries-got source (entry name (link mode g r) rest) path s t h =
          let one =
            copy_file stat refuses r (got (target_mode (join_path source name)))
              (join_path path name) in
          let (u, h1, h2) =
            >>=-eq-got one (λ _. copy_entries stat refuses target_mode source rest path) s t h in
          let (e1, c1) =
            copy_file-got r (got (target_mode (join_path source name))) (join_path path name) s u
              h1 in
          let (e2, c2) = copy_entries-got source rest path u t h2 in
          (writes_both s u t (read_to (join_path path name) r) _ e1 e2, (c1, c2))
      copy_entries-got source (entry name (special mode g r) rest) path s t h =
          let one = copy_file stat refuses r (got mode) (join_path path name) in
          let (u, h1, h2) =
            >>=-eq-got one (λ _. copy_entries stat refuses target_mode source rest path) s t h in
          let (e1, c1) = copy_file-got r (got mode) (join_path path name) s u h1 in
          let (e2, c2) = copy_entries-got source rest path u t h2 in
          (writes_both s u t (read_to (join_path path name) r) _ e1 e2, (c1, c2))
      copy_entries-got source (entry name (sealed mode e) rest) path s t h = ground arith
      copy_entries-got source (entry name (broken e) rest) path s t h = ground arith

-- If CopyDir returns no error, then every directory below the source could be read and every file,
-- link and special file in it to its end, and just their bytes were written, in the order of the
-- directories, each to its name joined to the destination of its directory.
pub copy_dir_complete :
    (stat : Calls → Bytes → Stat) (refuses : Calls → FileCall → Option Bytes)
    (target_mode : Bytes → ℕ) (source : Bytes) (tree : Node) (path : Bytes) (calls : Calls)
    → copy_dir stat refuses target_mode source tree path [] ≡ (calls, got tt)
    → (writes calls ≡ contents path tree) × IsCopyable tree
unfolding writes
copy_dir_complete stat refuses target_mode source tree path calls h =
    copy_dir-got stat refuses target_mode source tree path [] calls h
