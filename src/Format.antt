-- ===== src/Format.antt =====
-- format/format.go. Its texts are ASCII, so bytes are runes and `ToUpper` keeps positions. What
-- `stringx.Title` returns, a function of golang.org/x/text, is the parameter `title`.
pub mod Pieces
pub mod Layout
pub mod Idempotent
mod Examples
use sub_sdk.Base.{
  ℕ, ◌+◌, ltb, Bool, true, false, ◌||◌, Option, none, some, List, [], ◌∷◌, ◌++◌, ◌==◌,
  if◌then◌else◌, map, take, drop, eqb,
}
use sub_sdk.Go.Text.{Bytes, bytes, is_upper}
use sub_sdk.Go.Split.{join}
use sub_sdk.Go.Case.{to_lower, to_upper}
use sub_sdk.Go.Index.{index}
use sub_sdk.Stringx.Blank.{is_empty}

pub data Style : Type 0 where
  unknown title_style lower_style upper_style : Style

pub data FormatError : Type 0 where
  naming_format unexpected_format : FormatError

pub data Formatted {ℓ} (A : Type ℓ) : Type ℓ where
  ok : A → Formatted A
  err : FormatError → Formatted A

infixl 5 ◌>>=◌
abbrev pub ◌>>=◌ {ℓ κ} : {A : Type ℓ} {B : Type κ} → Formatted A → (A → Formatted B) → Formatted B
ok a >>= f = f a
err e >>= f = err e

pub record StyleFormat : Type 0 where
  pub before : Bytes
  pub through : Bytes
  pub after : Bytes
  pub go_style : Style
  pub zero_style : Style

-- if buffer.Len() > 0 { list = append(list, buffer.String()) }
flush : Bytes → List Bytes → List Bytes
flush buffer list = if is_empty buffer then list else list ++ (buffer ∷ [])

split_loop : Bytes → Bytes → List Bytes → List Bytes
unfolding flush is_upper
split_loop [] buffer list = flush buffer list
split_loop (r ∷ s) buffer list =
    split_loop s (if r == b'_' then [] else if is_upper r then r ∷ [] else buffer ++ (r ∷ []))
      (if r == b'_' || is_upper r then flush buffer list else list)

pub split : Bytes → List Bytes
unfolding split_loop
split content = split_loop content [] []

module _ (title : Bytes → Bytes) where
  pub transfer_to : Bytes → Style → Bytes
  transfer_to text upper_style = to_upper text
  transfer_to text lower_style = to_lower text
  transfer_to text title_style = title text
  transfer_to text unknown = text

  pub get_style : Bytes → Formatted Style
  get_style flag =
      if eqb flag (to_lower (to_lower flag))
      then ok lower_style
      else if eqb flag (to_upper (to_lower flag))
      then ok upper_style
      else if eqb flag (title (to_lower flag))
      then ok title_style
      else err unexpected_format

  -- The first piece takes the go style, and the others the zero style.
  abbrev pub styled : Style → Style → List Bytes → List Bytes
  styled go_style zero_style [] = []
  styled go_style zero_style (p ∷ ps) =
      transfer_to p go_style ∷ map (λ q. transfer_to q zero_style) ps

  pub do_format : StyleFormat → Bytes → Bytes
  do_format f content =
      f.before ++ (join f.through (styled f.go_style f.zero_style (split content)) ++ f.after)

  -- The slices of the format at the two indices.
  format_at : Bytes → Bytes → ℕ → ℕ → Formatted Bytes
  format_at format content index_go index_zero = do
    go_style ← get_style (take 2 (drop index_go format))
    zero_style ← get_style (take 4 (drop index_zero format))
    ok (
        do_format
          (record {
            before = take index_go format;
            through = drop (index_go + 2) (take index_zero format);
            after = drop (index_zero + 4) format;
            go_style = go_style;
            zero_style = zero_style;
          })
          content)

  check_indices : Bytes → Bytes → Option ℕ → Option ℕ → Formatted Bytes
  unfolding format_at
  check_indices format content (some index_go) (some index_zero) =
      if ltb index_zero index_go
      then err naming_format
      else format_at format content index_go index_zero
  check_indices format content _ _ = err naming_format

  pub file_naming_format : Bytes → Bytes → Formatted Bytes
  unfolding check_indices
  file_naming_format format content =
      check_indices format content (index (bytes "GO") (to_upper format))
        (index (bytes "ZERO") (to_upper format))
