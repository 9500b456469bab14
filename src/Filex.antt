-- ===== src/Filex.antt =====
-- filex: a tree of files, filepath.Walk over it, and the steps of a writer that may fail.
-- An error is its text: fmt.Errorf with %s or %v only writes the text of the error it is given.
pub mod Items
pub mod Walk
pub mod Archive
pub mod Extract
pub mod Split
pub mod Upload
pub mod Download
pub mod Zstd
pub mod Files
pub mod Sample
use sub_sdk.Base.{ℕ, Bool, true, false, Option, none, some, List, [], ◌∷◌, ◌++◌}
use sub_sdk.Go.Text.{Bytes, bytes}
use sub_sdk.Go.Split.{join}

pub data Res (A : Type 0) : Type 0 where
  got : A → Res A
  failed : Bytes → Res A

-- A step on a state that may fail; what it did before the error stays done.
abbrev pub Step : Type 0 → Type 0 → Type 0
Step S A = S → S × Res A

abbrev pub pure : {S A : Type 0} → A → Step S A
pure a s = (s, got a)

abbrev pub fail : {S A : Type 0} → Bytes → Step S A
fail e s = (s, failed e)

infixl 5 ◌>>=◌ ◌>>◌
abbrev pub ◌>>=◌ : {S A B : Type 0} → Step S A → (A → Step S B) → Step S B
◌>>=◌ m k s = let (s', r) = m s in elim r [ got a ↦ k a s' | failed e ↦ (s', failed e) ]

abbrev pub ◌>>◌ : {S A B : Type 0} → Step S A → Step S B → Step S B
m >> k = m >>= λ _. k

-- fmt.Errorf(text + "%s", err)
abbrev pub labelled : {S A : Type 0} → Bytes → Step S A → Step S A
labelled text m s =
    let (s', r) = m s in elim r [ got a ↦ (s', got a) | failed e ↦ (s', failed (text ++ e)) ]

-- What opening a file and copying all of it gives: the open fails, the copy stops with an error after
-- some bytes, or all bytes are read.
pub data Read : Type 0 where
  no_open : Bytes → Read
  cut : Bytes → Bytes → Read
  whole : Bytes → Read

-- What lies at a path, with its os.FileMode: a regular file; a directory with its names in order; a
-- directory whose names cannot be read; a symbolic link, its target and what opening it reads; a
-- device, pipe or socket, and whether tar.FileInfoHeader refuses it; a path whose Lstat fails.
mutual
  pub data Node : Type 0 where
    file : ℕ → Read → Node
    dir : ℕ → Entries → Node
    sealed : ℕ → Bytes → Node
    link : ℕ → Res Bytes → Read → Node
    special : ℕ → Option Bytes → Read → Node
    broken : Bytes → Node

  pub data Entries : Type 0 where
    end : Entries
    entry : Bytes → Node → Entries → Entries

-- The names from the root of the walk down to the file.
abbrev pub Names : Type 0
Names = List Bytes

-- filepath.Rel(root, path) of a path that the walk of root has reached
unfoldable pub rel : Names → Bytes
rel [] = 46 ∷ []
rel (name ∷ names) = join (47 ∷ []) (name ∷ names)

-- The error that the walk hands to its function with a path.
abbrev pub walk_error : Node → Option Bytes
walk_error (sealed mode e) = some e
walk_error (broken e) = some e
walk_error _ = none

abbrev pub is_dir : Node → Bool
is_dir (dir mode es) = true
is_dir (sealed mode e) = true
is_dir _ = false

abbrev pub is_regular : Node → Bool
is_regular (file mode r) = true
is_regular _ = false

-- What os.Open and io.Copy read.
abbrev pub opened : Node → Read
opened (file mode r) = r
opened (link mode t r) = r
opened (special mode h r) = r
opened _ = whole []

-- filepath.Walk: the function sees a path, what lies there, and so the error of the walk; an error
-- that it returns ends the walk.
module _ {S : Type 0} (visit : Names → Node → Step S Unit) where
  unfoldable mutual
    pub walk : Names → Node → Step S Unit
    walk names (dir mode es) = do visit names (dir mode es); walk_entries names es
    walk names node = visit names node

    pub walk_entries : Names → Entries → Step S Unit
    walk_entries names end = pure tt
    walk_entries names (entry name node rest) = do
      walk (names ++ name ∷ []) node
      walk_entries names rest
