-- ===== src/Stringx/FirstLetter.antt =====
-- `UnTitle` and `TitleFirstLetter` of stringx/string.go. A text is given as its runes, and the result is
-- bytes: the code reads the first byte as if it were the first rune.
use sub_sdk.Base.{
  ℕ, ◌+◌, ◌-◌, ◌/◌, ◌≤◌, ◌<◌, ◌≡◌, true, false, not, ◌&&◌, ◌||◌, [], ◌∷◌, ◌++◌, if◌then◌else◌,
  length, arith, lt→ltb, ◌%◌,
}
use sub_sdk.Go.Text.{Bytes, utf8, is_upper, is_lower}
use sub_sdk.Go.Unicode.{
  is_space, is_upper_latin, is_lower_latin, is_letter_latin, to_lower_latin, to_upper_latin,
}
use sub_sdk.Stringx.Blank.{Runes, is_empty_or_space, is_empty_or_space_ne}

-- The UTF-8 bytes of a text.
abbrev pub encode : Runes → Bytes
encode [] = []
encode (r ∷ s) = utf8 r ++ encode s

-- string(unicode.ToLower(rune(s[0]))) + s[1:], if the byte is a cased letter
un_title_bytes : Bytes → Bytes
un_title_bytes [] = []
un_title_bytes (b ∷ rest) =
    if not (is_upper_latin b) && not (is_lower_latin b)
    then b ∷ rest
    else utf8 (to_lower_latin b) ++ rest

pub un_title : Runes → Bytes
unfolding un_title_bytes
un_title s = if is_empty_or_space s then encode s else un_title_bytes (encode s)

title_bytes : Bytes → Bytes
title_bytes [] = []
title_bytes (b ∷ rest) =
    if not (is_letter_latin b) then b ∷ rest else utf8 (to_upper_latin b) ++ rest

unfoldable pub title_first_letter : Runes → Bytes
unfolding title_bytes
title_first_letter s = title_bytes (encode s)

utf8_ascii : (c : ℕ) → c < 0x80 → utf8 c ≡ c ∷ []
utf8_ascii c h = rw (lt→ltb c 0x80 h)

module _ (c : ℕ) (h : (is_upper c || is_lower c) ≡ true) where
  letter_ascii : c < 0x80
  unfolding is_upper is_lower
  letter_ascii = ground arith

  letter_not_space : is_space c ≡ false
  unfolding is_upper is_lower is_space
  letter_not_space = ground arith

  untitled_ascii :
      (rest : Bytes) → un_title_bytes (c ∷ rest) ≡ (if is_upper c then c + 32 else c) ∷ rest
  unfolding un_title_bytes is_upper is_lower is_upper_latin is_lower_latin to_lower_latin
  untitled_ascii rest = ground arith

  titled_ascii : (rest : Bytes) → title_bytes (c ∷ rest) ≡ (if is_lower c then c - 32 else c) ∷ rest
  unfolding title_bytes is_upper is_lower is_letter_latin to_upper_latin
  titled_ascii rest = ground arith

-- A text that begins with an ASCII letter has just that letter changed: to the lower case by
-- `UnTitle`, to the upper case by `TitleFirstLetter`.
pub first_letter_ascii :
    (c : ℕ) (s : Runes)
    → (is_upper c || is_lower c) ≡ true
    → (un_title (c ∷ s) ≡ (if is_upper c then c + 32 else c) ∷ encode s)
      × (title_first_letter (c ∷ s) ≡ (if is_lower c then c - 32 else c) ∷ encode s)
unfolding un_title title_first_letter
first_letter_ascii c s h = (
  rw (is_empty_or_space_ne c s (letter_not_space c h), utf8_ascii c (letter_ascii c h))
      (untitled_ascii c h (encode s)),
  rw (utf8_ascii c (letter_ascii c h)) (titled_ascii c h (encode s)),
)

-- The CJK unified ideographs.
abbrev IsIdeograph : ℕ → Type 0
IsIdeograph c = (0x4e00 ≤ c) × (c ≤ 0x9fff)

module _ (c : ℕ) (h : IsIdeograph c) where
  utf8_ideograph : utf8 c ≡ (0xe0 + c / 4096) ∷ (0x80 + (c / 64) % 64) ∷ (0x80 + c % 64) ∷ []
  utf8_ideograph = ground arith

  ideograph_not_space : is_space c ≡ false
  unfolding is_space
  ideograph_not_space = ground arith

  untitled_ideograph :
      (x y : ℕ) (rest : Bytes)
      → length (un_title_bytes ((0xe0 + c / 4096) ∷ x ∷ y ∷ rest)) ≡ length rest + 4
  unfolding un_title_bytes is_upper is_lower is_upper_latin is_lower_latin to_lower_latin
  untitled_ideograph x y rest = ground arith

  titled_ideograph :
      (x y : ℕ) (rest : Bytes)
      → length (title_bytes ((0xe0 + c / 4096) ∷ x ∷ y ∷ rest)) ≡ length rest + 4
  unfolding title_bytes is_upper is_lower is_letter_latin to_upper_latin
  titled_ideograph x y rest = ground arith

-- A text that begins with a CJK ideograph is damaged by both functions: its first byte becomes two.
pub first_letter_ideograph :
    (c : ℕ) (s : Runes)
    → IsIdeograph c
    → (length (un_title (c ∷ s)) ≡ length (encode (c ∷ s)) + 1)
      × (length (title_first_letter (c ∷ s)) ≡ length (encode (c ∷ s)) + 1)
unfolding un_title title_first_letter
first_letter_ideograph c s h = (
  rw (is_empty_or_space_ne c s (ideograph_not_space c h), utf8_ideograph c h)
      (omega (arith, untitled_ideograph c h (0x80 + (c / 64) % 64) (0x80 + c % 64) (encode s))),
  rw (utf8_ideograph c h)
      (omega (arith, titled_ideograph c h (0x80 + (c / 64) % 64) (0x80 + c % 64) (encode s))),
)
