-- ===== src/Filex/Upload/Complete.antt =====
-- filex/zstd-upload.go: the stream of a directory holds all of it, or the pipe is closed with an error.
use sub_sdk.Base.{ℤ, ◌≡◌, false, Option, none, some, List, [], ◌∷◌, append_assoc, arith}
use sub_sdk.Go.Text.{Bytes}
use sub_sdk.Filex.{
  got, failed, Read, no_open, cut, whole, Node, file, dir, sealed, link, special, broken, Names,
  walk, opened,
}
use sub_sdk.Filex.Items.{Header, Item, header, body, Items, write_to, mode_of, header_mode, flag_of}
use sub_sdk.Filex.Walk.{listing, Everywhere, Visits, walk-got}
use sub_sdk.Filex.Archive.Complete.{as_written, Always}
use sub_sdk.Filex.Upload.{
  Upload, tar_stream, raw_stream, upload_visit, upload_rest, upload_content, produce, pack,
  pack_dir, pack_file, enc_level,
}

abbrev pub target_of : Node → Bytes
target_of (link mode (got t) r) = t
target_of _ = []

abbrev body_of : Read → Items
body_of (whole bs) = body bs ∷ []
body_of r = []

-- The content that follows the header.
abbrev pub content_of : Node → Items
content_of (file mode r) = body_of r
content_of (special mode e r) = body_of r
content_of _ = []

abbrev pub upload_header : (Names → Bytes) → Names → Node → Header
upload_header name_of names node = record {
  name = name_of names;
  flag = flag_of node;
  linkname = target_of node;
  mode = header_mode (mode_of node);
}

abbrev pub upload_items : (Names → Bytes) → Names → Node → Items
upload_items name_of names node = header (upload_header name_of names node) ∷ content_of node

abbrev IsRead : Read → Type 0
IsRead (whole bs) = Unit
IsRead _ = ⊥

-- The node can be read: a file and a special file to the end, a link's target.
abbrev pub IsPacked : Node → Type 0
IsPacked (file mode r) = IsRead r
IsPacked (dir mode es) = Unit
IsPacked (sealed mode e) = ⊥
IsPacked (link mode (got t) r) = Unit
IsPacked (link mode (failed e) r) = ⊥
IsPacked (special mode none r) = IsRead r
IsPacked (special mode (some e) r) = ⊥
IsPacked (broken e) = ⊥

module _ (refuses : Items → Item → Option Bytes) (name_of : Names → Bytes) where
  visits :
      Visits
        (upload_visit (write_to refuses) name_of)
        (upload_items name_of)
        as_written
        Always
        IsPacked
  unfolding upload_visit upload_rest upload_content
  visits names (file mode (whole bs)) s s' i h =
      let h0 = header (upload_header name_of names (file mode (whole bs))) in
      ground (arith, append_assoc s (h0 ∷ []) (body bs ∷ []))
  visits names (file mode (no_open e)) s s' i h = ground arith
  visits names (file mode (cut bs e)) s s' i h = ground arith
  visits names (dir mode es) s s' i h = ground arith
  visits names (sealed mode e) s s' i h = ground arith
  visits names (link mode (got g) r) s s' i h = ground arith
  visits names (link mode (failed e) r) s s' i h = ground arith
  visits names (special mode (some e) r) s s' i h = ground arith
  visits names (special mode none (whole bs)) s s' i h =
      let h0 = header (upload_header name_of names (special mode none (whole bs))) in
      ground (arith, append_assoc s (h0 ∷ []) (body bs ∷ []))
  visits names (special mode none (no_open e)) s s' i h = ground arith
  visits names (special mode none (cut bs e)) s s' i h = ground arith
  visits names (broken e) s s' i h = ground arith

pack_dir-got :
    (name_of : Names → Bytes) (u : Upload) (items : Items)
    → pack_dir name_of u ≡ (tar_stream items, none)
    → walk (upload_visit (write_to u.refuses) name_of) [] u.tree [] ≡ (items, got tt)
unfolding pack_dir
pack_dir-got name_of u items h = ground arith

pack-got :
    (name_of : Names → Bytes) (u : Upload) (levels : List ℤ) (items : Items)
    → produce name_of u levels ≡ (tar_stream items, none)
    → pack_dir name_of u ≡ (tar_stream items, none)
unfolding produce pack pack_file
pack-got name_of u levels items h = ground arith

pub produce_complete :
    (name_of : Names → Bytes) (u : Upload) (levels : List ℤ) (items : Items)
    → produce name_of u levels ≡ (tar_stream items, none)
    → (items ≡ listing (upload_items name_of) [] u.tree) × Everywhere IsPacked u.tree
produce_complete name_of u levels items h =
    let walked = pack_dir-got name_of u items (pack-got name_of u levels items h) in
    let (a, packed) =
      walk-got (upload_visit (write_to u.refuses) name_of) (upload_items name_of) as_written Always
        IsPacked (visits u.refuses name_of) [] u.tree [] items tt walked in
    (a.0, packed)

-- A path that is no directory is uploaded as its bytes.
pub produce_file :
    (name_of : Names → Bytes) (u : Upload) (levels : List ℤ) (bs : Bytes)
    → u.encoder (enc_level levels) ≡ none
    → u.stat ≡ got false
    → opened u.tree ≡ whole bs
    → produce name_of u levels ≡ (raw_stream bs, none)
unfolding produce pack pack_file
produce_file name_of u levels bs e s o = ground arith
