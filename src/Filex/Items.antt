-- ===== src/Filex/Items.antt =====
-- filex/tar.go, filex/zip.go: what is written into an archive, one piece after another.
use sub_sdk.Base.{ℕ, ◌+◌, ◌*◌, ◌/◌, ◌%◌, ◌^◌, Option, none, some, List, [], ◌∷◌, ◌++◌, length}
use sub_sdk.Go.Text.{Bytes}
use sub_sdk.Filex.{
  got, failed, Step, pure, fail, ◌>>◌, Read, no_open, cut, whole, Node, file, dir, sealed, link,
  special, broken,
}

pub data Flag : Type 0 where
  type_reg type_dir type_symlink type_other : Flag

-- tar.Header, the fields that the code sets or reads
pub record Header : Type 0 where
  pub name : Bytes
  pub flag : Flag
  pub linkname : Bytes
  pub mode : ℕ

pub data Item : Type 0 where
  header : Header → Item
  body : Bytes → Item

abbrev pub Items : Type 0
Items = List Item

-- A piece is refused or stands after the pieces written before.
abbrev pub write_to : (Items → Item → Option Bytes) → Item → Step Items Unit
write_to refuses item items = elim (refuses items item) [
  | some e ↦ (items, failed e)
  | none ↦ (items ++ item ∷ [], got tt)
]

-- The mode that tar.FileInfoHeader gives: the permission bits, and set-uid, set-gid and sticky at
-- the places of tar.
abbrev pub header_mode : ℕ → ℕ
header_mode mode =
    mode % 512
    + 2048 * ((mode / 2 ^ 23) % 2)
    + 1024 * ((mode / 2 ^ 22) % 2)
    + 512 * ((mode / 2 ^ 20) % 2)

-- The os.FileMode of what lies at a path.
abbrev pub mode_of : Node → ℕ
mode_of (file mode r) = mode
mode_of (dir mode es) = mode
mode_of (sealed mode e) = mode
mode_of (link mode t r) = mode
mode_of (special mode h r) = mode
mode_of (broken e) = 0

abbrev pub flag_of : Node → Flag
flag_of (file mode r) = type_reg
flag_of (dir mode es) = type_dir
flag_of (sealed mode e) = type_dir
flag_of (link mode t r) = type_symlink
flag_of (special mode h r) = type_other
flag_of (broken e) = type_other

-- Why tar.FileInfoHeader refuses it.
abbrev pub header_error : Node → Option Bytes
header_error (special mode h r) = h
header_error _ = none

-- tar.FileInfoHeader(info, ""), with header.Name set to a name
abbrev pub file_info_header : {S : Type 0} → Bytes → Node → Step S Header
file_info_header name node s = elim (header_error node) [
  | some e ↦ (s, failed e)
  | none ↦ (
    s,
    got (record {
      name = name;
      flag = flag_of node;
      linkname = [];
      mode = header_mode (mode_of node);
    }),
  )
]

-- os.Open
abbrev pub open_file : {S : Type 0} → Read → Step S Unit
open_file (no_open e) = fail e
open_file _ = pure tt

-- io.Copy of an open file into the archive: the number of bytes.
abbrev pub copy : {S : Type 0} → (Item → Step S Unit) → Read → Step S ℕ
copy write (no_open e) = fail e
copy write (cut bs e) = do write (body bs); fail e
copy write (whole bs) = do write (body bs); pure (length bs)
