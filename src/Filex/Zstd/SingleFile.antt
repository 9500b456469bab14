-- ===== src/Filex/Zstd/SingleFile.antt =====
-- filex/zstd.go: a single file, compressed and decompressed again.
use sub_sdk.Base.{ℤ, ◌≡◌, refl, ap, ◌∙◌, false, Option, none, List, [], ◌∷◌}
use sub_sdk.Go.Text.{Bytes}
use sub_sdk.Go.Path.{dir_path}
use sub_sdk.Filex.{got, pure, ◌>>◌, whole, opened}
use sub_sdk.Filex.Items.{Header, Items}
use sub_sdk.Filex.Extract.{mkdir, create, fill, do_op}
use sub_sdk.Filex.Extract.RoundTrip.{never}
use sub_sdk.Filex.Upload.{Upload, Stream, raw_stream, enc_level, zst_name, name_in_parent}
use sub_sdk.Filex.Upload.Complete.{produce_file}
use sub_sdk.Filex.Zstd.{
  kept_stream, zstd_answer, compress_zstd, unzstd_stream, unzstd_file, decompress_zstd,
}

as_file :
    (as_tar : Bytes → Option (Header × Items)) (dst bs : Bytes)
    → as_tar bs ≡ none
    → unzstd_stream (do_op never) dst as_tar (raw_stream bs) ≡ unzstd_file (do_op never) dst bs
unfolding unzstd_stream
as_file as_tar dst bs n = rw (unzstd_stream, n) refl

-- A single file that is read to its end and does not begin with a header of tar, compressed into a file
-- that can be created and whose Close calls, whose errors are dropped, have none, and decompressed from
-- there where every change is made, ends as all its bytes at the destination; both return the path that
-- they have written, without an error.
pub decompress_zstd-compress_zstd :
    (u : Upload) (path dst bs : Bytes) (levels : List ℤ) (as_tar : Bytes → Option (Header × Items))
    (close : Stream → Option Stream)
    → u.encoder (enc_level levels) ≡ none
    → u.stat ≡ got false
    → opened u.tree ≡ whole bs
    → as_tar bs ≡ none
    → close (raw_stream bs) ≡ none
    → (compress_zstd none close u path levels ≡ (raw_stream bs, got (zst_name path)))
      × (decompress_zstd never
            (record {
              opening = none;
              decoding = none;
              stream = (compress_zstd none close u path levels).0;
              reading = none;
              as_tar = as_tar;
            })
            dst
            []
          ≡ (mkdir (dir_path dst) 0o755 ∷ create dst ∷ fill dst bs ∷ [], got dst))
unfolding compress_zstd zstd_answer decompress_zstd unzstd_stream unzstd_file
decompress_zstd-compress_zstd u path dst bs levels as_tar close e s o n c =
    let p = produce_file (name_in_parent u.source) u levels bs e s o in
    let compressed : compress_zstd none close u path levels ≡ (raw_stream bs, got (zst_name path)) =
      ap (zstd_answer close (zst_name path)) p
      ∙ ap (λ left. (kept_stream left (raw_stream bs), got (zst_name path))) c in
    (
      compressed,
      ap (λ r. (unzstd_stream (do_op never) dst as_tar r.0 >> pure dst) []) compressed
          ∙ ap (λ m. (m >> pure dst) []) (as_file as_tar dst bs n),
    )
