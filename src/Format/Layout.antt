-- ===== src/Format/Layout.antt =====
-- What `FileNamingFormat` makes of a format that begins with its go flag.
use sub_sdk.Base.{
  ℕ, ◌+◌, ◌≤◌, ◌≡◌, refl, sym, ap, ◌∙◌, [], ◌∷◌, ◌++◌, All-append, take, drop, length,
  length-append, length-map, take_prefix, drop_prefix, append_assoc, map-append, arith, some,
}
use sub_sdk.Go.Text.{Bytes, bytes}
use sub_sdk.Go.Split.{Lacks, join}
use sub_sdk.Go.Case.{upper, to_upper}
use sub_sdk.Go.Index.{index, index-append, index-skip}
use sub_sdk.Format.{
  Style, ok, split, styled, get_style, do_format, format_at, check_indices, file_naming_format,
}

to_upper-append : (s t : Bytes) → to_upper (s ++ t) ≡ to_upper s ++ to_upper t
unfolding to_upper
to_upper-append s t = map-append upper s t

length-to_upper : (s : Bytes) → length (to_upper s) ≡ length s
unfolding to_upper
length-to_upper s = length-map upper s

module _ (title : Bytes → Bytes) where
  format_at-slices :
      (format content before go_flag through zero_flag after : Bytes) (i j : ℕ) (sg sz : Style)
      → take 2 (drop i format) ≡ go_flag
      → take 4 (drop j format) ≡ zero_flag
      → take i format ≡ before
      → drop (i + 2) (take j format) ≡ through
      → drop (j + 4) format ≡ after
      → get_style title go_flag ≡ ok sg
      → get_style title zero_flag ≡ ok sz
      → format_at title format content i j
        ≡ ok (before ++ (join through (styled title sg sz (split content)) ++ after))
  unfolding format_at do_format
  format_at-slices format content before go_flag through zero_flag after i j sg sz eg ez eb et ea hg
        hz =
      rw (eg, ez, eb, et, ea, hg, hz)

  -- A format that consists of a go flag, a separator without the letter z, a zero flag and an ending, each
  -- flag in a style that `getStyle` knows: every content is formatted, as its pieces in
  -- these styles with the separator between them and the ending behind.
  pub file_naming_format_layout :
      (go_flag through zero_flag after content : Bytes) (sg sz : Style)
      → to_upper go_flag ≡ bytes "GO"
      → to_upper zero_flag ≡ bytes "ZERO"
      → Lacks b'Z' (to_upper through)
      → get_style title go_flag ≡ ok sg
      → get_style title zero_flag ≡ ok sz
      → file_naming_format title (go_flag ++ (through ++ (zero_flag ++ after))) content
        ≡ ok (join through (styled title sg sz (split content)) ++ after)
  file_naming_format_layout go_flag through zero_flag after content sg sz ug uz lacks hg hz =
      indices format content found_go found_zero (omega arith)
      ∙ format_at-slices format content [] go_flag through zero_flag after 0 j sg sz
          (take_prefix go_flag _ 2 (sym lg))
          (ap (λ l. take 4 (drop j l)) regroup
            ∙ (ap (take 4) (drop_prefix (go_flag ++ through) _ j lj)
                ∙ take_prefix zero_flag after 4 (sym lz)))
          refl
          (ap (λ l. drop 2 (take j l)) regroup
            ∙ (ap (drop 2) (take_prefix (go_flag ++ through) _ j lj)
                ∙ drop_prefix go_flag through 2 (sym lg)))
          (ap (drop (j + 4)) regroup2
            ∙ drop_prefix ((go_flag ++ through) ++ zero_flag) after (j + 4)
                (omega (arith, lz, lj, length-append {0} (go_flag ++ through) zero_flag)))
          hg hz
    where
      format : Bytes
      format = go_flag ++ (through ++ (zero_flag ++ after))

      lg : length go_flag ≡ 2
      lg = sym (length-to_upper go_flag) ∙ ap length ug

      lz : length zero_flag ≡ 4
      lz = sym (length-to_upper zero_flag) ∙ ap length uz

      j : ℕ
      j = length (bytes "GO" ++ to_upper through) + 0

      lj : j ≡ length (go_flag ++ through)
      lj = omega (arith, lg, length-append {0} go_flag through, length-to_upper through)

      regroup : format ≡ (go_flag ++ through) ++ (zero_flag ++ after)
      regroup = simp append_assoc

      regroup2 : format ≡ ((go_flag ++ through) ++ zero_flag) ++ after
      regroup2 = simp append_assoc

      upper_format :
          to_upper format ≡ bytes "GO" ++ (to_upper through ++ (bytes "ZERO" ++ to_upper after))
      upper_format = simp (to_upper-append, ug, uz)

      found_go : index (bytes "GO") (to_upper format) ≡ some 0
      found_go = rw upper_format (index-append b'G' (b'O' ∷ []) _)

      found_zero : index (bytes "ZERO") (to_upper format) ≡ some j
      found_zero = rw upper_format (
          index-skip b'Z' (bytes "ERO") (bytes "GO" ++ to_upper through) _
            (All-append _ (bytes "GO") (to_upper through) (omega arith) lacks)
            (index-append b'Z' (bytes "ERO") _))

      indices :
          (f c : Bytes) {i k : ℕ}
          → index (bytes "GO") (to_upper f) ≡ some i
          → index (bytes "ZERO") (to_upper f) ≡ some k
          → i ≤ k
          → file_naming_format title f c ≡ format_at title f c i k
      indices f c a b le = unfold file_naming_format check_indices in ground arith
