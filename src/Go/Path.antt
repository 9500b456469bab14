-- ===== src/Go/Path.antt =====
-- `path/filepath` on Unix: `Clean`, `Join` of two, `Dir`, `Base` and `Ext`, on the names between the slashes.
pub mod Proper
pub mod Suffix
use sub_sdk.Base.{
  ℕ, Bool, true, false, Option, none, some, List, [], ◌∷◌, ◌++◌, eqb, if◌then◌else◌, ◌==◌, ◌||◌,
}
use sub_sdk.Go.Text.{Bytes, bytes}
use sub_sdk.Go.Split.{split, join}

abbrev pub slash : ℕ
slash = 47

abbrev pub dot_dot : Bytes
dot_dot = 46 ∷ 46 ∷ []

abbrev pub is_rooted : Bytes → Bool
is_rooted [] = false
is_rooted (c ∷ path) = c == slash

-- A name that stays where it is: empty or "."
unfoldable pub is_same : Bytes → Bool
is_same name = eqb name [] || eqb name (46 ∷ [])

-- The names kept so far, the last one first, after a "..".
unfoldable pub pop : Bool → List Bytes → List Bytes
pop rooted [] = if rooted then [] else dot_dot ∷ []
pop rooted (name ∷ kept) = if eqb name dot_dot then dot_dot ∷ name ∷ kept else kept

unfoldable pub push : Bool → List Bytes → Bytes → List Bytes
unfolding is_same pop
push rooted kept name =
    if is_same name then kept else if eqb name dot_dot then pop rooted kept else name ∷ kept

unfoldable pub push_all : Bool → List Bytes → List Bytes → List Bytes
unfolding push
push_all rooted kept [] = kept
push_all rooted kept (name ∷ names) = push_all rooted (push rooted kept name) names

unfoldable pub reverse_onto : List Bytes → List Bytes → List Bytes
reverse_onto acc [] = acc
reverse_onto acc (name ∷ names) = reverse_onto (name ∷ acc) names

-- The text of the names that are left.
unfoldable pub print_path : Bool → List Bytes → Bytes
unfolding join
print_path true names = slash ∷ join (slash ∷ []) names
print_path false [] = 46 ∷ []
print_path false (name ∷ names) = join (slash ∷ []) (name ∷ names)

-- filepath.Clean(path)
unfoldable pub clean : Bytes → Bytes
unfolding print_path reverse_onto push_all split
clean path =
    print_path (is_rooted path) (reverse_onto [] (push_all (is_rooted path) [] (split slash path)))

-- filepath.Join(dir, name), which leaves out what is empty.
unfoldable pub join_path : Bytes → Bytes → Bytes
unfolding clean
join_path [] [] = []
join_path [] (c ∷ name) = clean (c ∷ name)
join_path (c ∷ dir) [] = clean (c ∷ dir)
join_path (c ∷ dir) (d ∷ name) = clean ((c ∷ dir) ++ slash ∷ d ∷ name)

abbrev pub last_name : Bytes → List Bytes → Bytes
last_name name [] = name
last_name name (next ∷ names) = last_name next names

-- The names without the last one, and an empty one in its place.
blank_last : List Bytes → List Bytes
blank_last [] = []
blank_last (name ∷ []) = [] ∷ []
blank_last (name ∷ next ∷ names) = name ∷ blank_last (next ∷ names)

-- filepath.Dir(path)
unfoldable pub dir_path : Bytes → Bytes
unfolding clean blank_last split join
dir_path path = clean (join (slash ∷ []) (blank_last (split slash path)))

-- The last name that is not empty.
last_filled : Bytes → List Bytes → Bytes
last_filled found [] = found
last_filled found (name ∷ names) = last_filled (if eqb name [] then found else name) names

-- filepath.Base(path)
unfoldable pub base_path : Bytes → Bytes
unfolding last_filled split
base_path [] = 46 ∷ []
base_path (c ∷ path) = last_filled (slash ∷ []) (split slash (c ∷ path))

-- From the last dot on.
from_dot : Bytes → Option Bytes
from_dot [] = none
from_dot (c ∷ s) =
    let later = from_dot s in
    elim later [ some e ↦ some e | none ↦ if c == 46 then some (c ∷ s) else none ]

-- filepath.Ext(path)
unfoldable pub ext : Bytes → Bytes
unfolding from_dot split
ext path = elim (from_dot (last_name [] (split slash path))) [ some e ↦ e | none ↦ [] ]
