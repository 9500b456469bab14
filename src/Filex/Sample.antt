-- ===== src/Filex/Sample.antt =====
-- A folder with a file, a link and a folder below it, and a folder with a file that cannot be opened.
use sub_sdk.Base.{[]}
use sub_sdk.Go.Text.{Bytes, bytes}
use sub_sdk.Filex.{got, no_open, whole, Node, Entries, file, dir, link, end, entry}
use sub_sdk.Filex.Items.{Header, type_reg, type_dir, type_symlink}

abbrev pub notes : Bytes
notes = bytes "hello"

abbrev pub entries : Entries
entries = entry (bytes "a") (file 420 (whole notes)) (
    entry (bytes "l") (link 511 (got (bytes "a")) (whole notes))
      (entry (bytes "s") (dir 493 (entry (bytes "b") (file 384 (whole [])) end)) end))

abbrev pub tree : Node
tree = dir 493 entries

abbrev pub locked_tree : Node
locked_tree = dir 493 (
    entry (bytes "a") (file 420 (no_open (bytes "denied")))
      (entry (bytes "b") (file 420 (whole notes)) end))

abbrev pub file_header : Bytes → Header
file_header name = record { name = name; flag = type_reg; linkname = []; mode = 420 }

abbrev pub dir_header : Bytes → Header
dir_header name = record { name = name; flag = type_dir; linkname = []; mode = 493 }

abbrev pub link_header : Bytes → Header
link_header name = record { name = name; flag = type_symlink; linkname = []; mode = 511 }
