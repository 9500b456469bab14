-- ===== src/Filex/Download/Safe.antt =====
-- filex/zstd-upload.go DownloadAndDecompress: no file and no link is made outside the destination.
use sub_sdk.Base.{
  ◌≡◌, refl, Bool, true, false, Option, none, some, List, [], ◌∷◌, ◌++◌, All, All-append, ◌⊎◌, inl,
  inr, ◌==◌, ==_iff, ◌&&◌, if◌then◌else◌,
}
use sub_sdk.Go.Text.{Bytes, bytes}
use sub_sdk.Go.Index.{has_prefix}
use sub_sdk.Go.Path.{clean, join_path, dir_path}
use sub_sdk.Filex.{
  Res, got, failed, Step, pure, fail, ◌>>=◌, ◌>>◌, labelled, Read, no_open, cut, whole,
}
use sub_sdk.Filex.Items.{Header, Flag, type_reg, type_dir, type_symlink, type_other, Items}
use sub_sdk.Filex.Archive.{answer}
use sub_sdk.Filex.Extract.{Op, mkdir, create, fill, symlink, Disk, do_op, copy_out}
use sub_sdk.Filex.Upload.{Stream, tar_stream, raw_stream}
use sub_sdk.Filex.Download.{
  Object, after_next, is_inside, place, place_entry, place_entries, place_archive, place_file,
  place_stream, reread, download_and_decompress,
}

-- A file or a link is made at the destination itself or at a path whose cleaned text goes on after the
-- cleaned destination and a slash.
abbrev pub IsAtOrInside : Bytes → Bytes → Type 0
IsAtOrInside dst path =
    (path ≡ dst) ⊎ ((rest : Bytes) × (clean path ≡ (clean dst ++ bytes "/") ++ rest))

has_prefix-append_back : (p s : Bytes) → has_prefix p s ≡ true → (rest : Bytes) × (s ≡ p ++ rest)
unfolding has_prefix
has_prefix-append_back [] s h = (s, refl)
has_prefix-append_back (c ∷ p) [] h = cc
has_prefix-append_back (c ∷ p) (d ∷ s) h =
    let (same, h') = both_true (c == d) (has_prefix p s) h in
    let (rest, e) = has_prefix-append_back p s h' in (rest, rw (← (==_iff c d).0 same, e) refl)
  where
    both_true : (a b : Bool) → (a && b) ≡ true → (a ≡ true) × (b ≡ true)
    both_true true b k = (refl, k)
    both_true false b k = cc

is_inside-IsAtOrInside : (dst path : Bytes) → is_inside dst path ≡ true → IsAtOrInside dst path
unfolding is_inside
is_inside-IsAtOrInside dst path h =
    inr (has_prefix-append_back (clean dst ++ bytes "/") (clean path) h)

abbrev pub IsConfined : Bytes → Op → Type 0
IsConfined dst (mkdir path mode) = Unit
IsConfined dst (create path) = IsAtOrInside dst path
IsConfined dst (fill path bs) = IsAtOrInside dst path
IsConfined dst (symlink target path) = IsAtOrInside dst path

-- A step that keeps a property of all changes made.
module _ (P : Op → Type 0) where
  abbrev pub Kept : {A : Type 0} → Disk × Res A → Type 0
  Kept r = All P r.0

  abbrev pub Keeps : {A : Type 0} → Step Disk A → Type 0
  Keeps m = (disk : Disk) → All P disk → All P (m disk).0

  then-Kept :
      {A B : Type 0} (r : Disk × Res A) (k : A → Step Disk B)
      → All P r.0
      → ((a : A) → Keeps (k a))
      → Kept {A = B} (elim r.1 [ got a ↦ k a r.0 | failed e ↦ (r.0, failed e) ])
  then-Kept (disk, got a) k h hk = hk a disk h
  then-Kept (disk, failed e) k h hk = h

  bind-Keeps :
      {A B : Type 0} (m : Step Disk A) (k : A → Step Disk B)
      → Keeps m
      → ((a : A) → Keeps (k a))
      → Keeps (m >>= k)
  bind-Keeps m k hm hk disk h = then-Kept (m disk) k (hm disk h) hk

  label-Kept :
      {A : Type 0} (text : Bytes) (r : Disk × Res A)
      → All P r.0
      → Kept {A = A} (elim r.1 [ got a ↦ (r.0, got a) | failed e ↦ (r.0, failed (text ++ e)) ])
  label-Kept text (disk, got a) h = h
  label-Kept text (disk, failed e) h = h

  labelled-Keeps : {A : Type 0} (text : Bytes) (m : Step Disk A) → Keeps m → Keeps (labelled text m)
  labelled-Keeps text m hm disk h = label-Kept text (m disk) (hm disk h)

  do_op-Kept :
      (o : Option Bytes) (op : Op) (disk : Disk)
      → P op
      → All P disk
      → Kept {A = Unit} (elim o [ some e ↦ (disk, failed e) | none ↦ (disk ++ op ∷ [], got tt) ])
  do_op-Kept (some e) op disk p h = h
  do_op-Kept none op disk p h = All-append P disk (op ∷ []) h (p, tt)

  do_op-Keeps : (refuses : Disk → Op → Option Bytes) (op : Op) → P op → Keeps (do_op refuses op)
  do_op-Keeps refuses op p disk h = do_op-Kept (refuses disk op) op disk p h

  answer-Keeps : (o : Option Bytes) → Keeps (answer o)
  answer-Keeps none disk h = h
  answer-Keeps (some e) disk h = h

module _ (refuses : Disk → Op → Option Bytes) (dst : Bytes) where
  abbrev Confines : {A : Type 0} → Step Disk A → Type 0
  Confines m = Keeps (IsConfined dst) m

  -- One step after another.
  both :
      {A B : Type 0} (m : Step Disk A) (k : Step Disk B)
      → Confines m
      → Confines k
      → Confines (m >> k)
  both m k hm hk = bind-Keeps (IsConfined dst) m (λ _. k) hm (λ _. hk)

  make : Op → Step Disk Unit
  make = do_op refuses

  make-Keeps : (op : Op) → IsConfined dst op → Keeps (IsConfined dst) (make op)
  unfolding make
  make-Keeps op p = do_op-Keeps (IsConfined dst) refuses op p

  copy_out-Keeps :
      (path : Bytes) (r : Read)
      → IsAtOrInside dst path
      → Keeps (IsConfined dst) (copy_out make path r)
  copy_out-Keeps path (no_open e) p = λ disk h. h
  copy_out-Keeps path (cut bs e) p =
      bind-Keeps (IsConfined dst) (make (fill path bs)) (λ _. fail e) (make-Keeps (fill path bs) p)
        (λ _ disk h. h)
  copy_out-Keeps path (whole bs) p = make-Keeps (fill path bs) p

  place-Keeps :
      (flag : Flag) (path : Bytes) (h : Header) (r : Read)
      → IsAtOrInside dst path
      → Keeps (IsConfined dst) (place make dst flag path h r)
  unfolding place
  place-Keeps type_dir path h r p = make-Keeps (mkdir path h.mode) tt
  place-Keeps type_reg path h r p =
      both (make (mkdir (dir_path path) 0o755)) (make (create path) >> copy_out make path r)
        (make-Keeps (mkdir (dir_path path) 0o755) tt)
        (both (make (create path)) (copy_out make path r) (make-Keeps (create path) p)
          (copy_out-Keeps path r p))
  place-Keeps type_symlink path h r p =
      both (make (mkdir (dir_path path) 0o755)) (make (symlink h.linkname path))
        (make-Keeps (mkdir (dir_path path) 0o755) tt) (make-Keeps (symlink h.linkname path) p)
  place-Keeps type_other path h r p = λ disk h. h

  checked :
      {A : Type 0} (b : Bool) (m k : Step Disk A)
      → (b ≡ true → Confines m)
      → Confines k
      → Confines (if b then m else k)
  checked true m k hm hk = hm refl
  checked false m k hm hk = hk

  place_entry-Confines : (h : Header) (r : Read) → Keeps (IsConfined dst) (place_entry make dst h r)
  unfolding place_entry
  place_entry-Confines h r =
      checked (is_inside dst (join_path dst h.name)) _ _
        (λ e. place-Keeps h.flag _ h r (is_inside-IsAtOrInside dst (join_path dst h.name) e))
        (λ disk d. d)

  place_entries-Confines :
      (ending : Option Bytes) (entries : List (Header × Read))
      → Confines (place_entries make dst ending entries)
  unfolding place_entries
  place_entries-Confines ending [] =
      labelled-Keeps (IsConfined dst) (bytes "读取 tar 条目失败: ") (answer ending)
        (answer-Keeps (IsConfined dst) ending)
  place_entries-Confines ending ((h, r) ∷ entries) =
      both (place_entry make dst h r) (place_entries make dst ending entries)
        (place_entry-Confines h r) (place_entries-Confines ending entries)

  make-Confines : (text : Bytes) (op : Op) → IsConfined dst op → Confines (labelled text (make op))
  make-Confines text op p = labelled-Keeps (IsConfined dst) text (make op) (make-Keeps op p)

  answer-Confines :
      (text : Bytes) (o : Option Bytes) → Confines (labelled {S = Disk} text (answer o))
  answer-Confines text o =
      labelled-Keeps (IsConfined dst) text (answer o) (answer-Keeps (IsConfined dst) o)

  place_archive-Confines :
      (reading : Option Bytes) (items : Items) → Confines (place_archive make dst reading items)
  unfolding place_archive
  place_archive-Confines reading items =
      let made = labelled (bytes "创建解压目录失败: ") (make (mkdir dst 0o755)) in
      let read : Step Disk Unit = labelled (bytes "读取解压数据失败: ") (answer reading) in
      let placed = place_entries make dst (reread items).1 (reread items).0 in
      both made (read >> placed) (make-Confines (bytes "创建解压目录失败: ") (mkdir dst 0o755) tt) (
        both read placed (answer-Confines (bytes "读取解压数据失败: ") reading)
          (place_entries-Confines (reread items).1 (reread items).0))

  place_file-Confines :
      (reading : Option Bytes) (bs : Bytes) → Confines (place_file make dst reading bs)
  unfolding place_file
  place_file-Confines reading bs =
      let made = labelled (bytes "创建目标目录失败: ") (make (mkdir (dir_path dst) 0o755)) in
      let created = labelled (bytes "创建输出文件失败: ") (make (create dst)) in
      let filled = make (fill dst bs) >> answer reading in
      let copied = labelled (bytes "写入输出文件失败: ") filled in
      both made (created >> copied)
        (make-Confines (bytes "创建目标目录失败: ") (mkdir (dir_path dst) 0o755) tt)
        (both created copied (make-Confines (bytes "创建输出文件失败: ") (create dst) (inl refl)) (
          labelled-Keeps (IsConfined dst) (bytes "写入输出文件失败: ") filled (
            both (make (fill dst bs)) (answer reading) (make-Keeps (fill dst bs) (inl refl))
              (answer-Keeps (IsConfined dst) reading))))

  place_stream-Confines :
      (reading : Option Bytes) (stream : Stream) → Confines (place_stream make dst reading stream)
  unfolding place_stream
  place_stream-Confines reading (tar_stream items) = place_archive-Confines reading items
  place_stream-Confines reading (raw_stream bs) = place_file-Confines reading bs

-- Whatever the object holds and whatever the file system refuses, every file and every link that
-- DownloadAndDecompress makes is the destination itself or lies at a path whose cleaned text is the
-- cleaned destination, a slash and more.
pub download_and_decompress-IsConfined :
    (refuses : Disk → Op → Option Bytes) (object : Object) (dst : Bytes)
    → All (IsConfined dst) (download_and_decompress refuses object dst []).0
unfolding download_and_decompress make
download_and_decompress-IsConfined refuses object dst =
    let got_it : Step Disk Unit = labelled (bytes "下载对象失败: ") (answer object.getting) in
    let decodes : Step Disk Unit =
      labelled (bytes "创建 zstd reader 失败: ") (answer object.decoding) in
    let placed =
      place_stream (do_op refuses) dst object.reading (after_next object.as_tar object.stream) in
    both refuses dst got_it (decodes >> (placed >> pure dst))
      (answer-Confines refuses dst (bytes "下载对象失败: ") object.getting)
      (both refuses dst decodes (placed >> pure dst)
        (answer-Confines refuses dst (bytes "创建 zstd reader 失败: ") object.decoding)
        (both refuses dst placed (pure dst)
          (place_stream-Confines refuses dst object.reading
            (after_next object.as_tar object.stream))
          (λ disk h. h)))
      [] tt
