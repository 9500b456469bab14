-- ===== src/Filex/Download/FirstBlock.antt =====
-- filex/zstd-upload.go: a single file, uploaded and downloaded again.
use sub_sdk.Base.{ℤ, ◌≡◌, refl, ap, false, Option, none, List, [], ◌∷◌, drop, take, arith}
use sub_sdk.Go.Text.{Bytes}
use sub_sdk.Go.Path.{dir_path}
use sub_sdk.Filex.{got, pure, ◌>>◌, Names, whole, opened}
use sub_sdk.Filex.Items.{Header, Items}
use sub_sdk.Filex.Extract.{mkdir, create, fill, do_op}
use sub_sdk.Filex.Extract.RoundTrip.{never}
use sub_sdk.Filex.Upload.{Upload, raw_stream, enc_level, produce}
use sub_sdk.Filex.Upload.Complete.{produce_file}
use sub_sdk.Filex.Download.{
  Object, only_zeros, block_read, after_next, place_stream, place_file, download_and_decompress,
}

abbrev pub fetched : (Bytes → Option (Header × Items)) → Bytes → Object
fetched as_tar bs = record {
  getting = none;
  decoding = none;
  stream = raw_stream bs;
  reading = none;
  as_tar = as_tar;
}

block_read_one : (bs : Bytes) → only_zeros (take 512 bs) ≡ false → block_read bs ≡ 512
unfolding block_read
block_read_one bs z = ground arith

rest_after_block :
    (as_tar : Bytes → Option (Header × Items)) (bs : Bytes)
    → as_tar bs ≡ none
    → only_zeros (take 512 bs) ≡ false
    → after_next as_tar (raw_stream bs) ≡ raw_stream (drop 512 bs)
unfolding after_next
rest_after_block as_tar bs n z = rw (after_next, n, block_read_one bs z) refl

-- A single file that is read to its end is uploaded as its bytes without an error, and downloading
-- those bytes, if the first block of 512 is neither all zeros nor a header of tar, returns the destination without an error but
-- writes the bytes after that block only: they were read in the search for a header of tar.
pub download_and_decompress_lacks_first_block :
    (name_of : Names → Bytes) (as_tar : Bytes → Option (Header × Items)) (u : Upload)
    (levels : List ℤ) (bs dst : Bytes)
    → u.encoder (enc_level levels) ≡ none
    → u.stat ≡ got false
    → opened u.tree ≡ whole bs
    → only_zeros (take 512 bs) ≡ false
    → as_tar bs ≡ none
    → (produce name_of u levels ≡ (raw_stream bs, none))
      × (download_and_decompress never (fetched as_tar bs) dst []
          ≡ (mkdir (dir_path dst) 0o755 ∷ create dst ∷ fill dst (drop 512 bs) ∷ [], got dst))
unfolding download_and_decompress place_stream place_file
download_and_decompress_lacks_first_block name_of as_tar u levels bs dst e s o z n = (
  produce_file name_of u levels bs e s o,
  ap (λ left. (place_stream (do_op never) dst none left >> pure dst) [])
      (rest_after_block as_tar bs n z),
)
