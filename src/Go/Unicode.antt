-- ===== src/Go/Unicode.antt =====
-- Package unicode: `IsSpace` on every code point, and the letters up to U+00FF with their case.
use sub_sdk.Base.{ℕ, ◌+◌, ◌-◌, Bool, ◌&&◌, ◌||◌, leb, ◌==◌, if◌then◌else◌}
use sub_sdk.Go.Text.{is_upper, is_lower}

-- unicode.IsSpace
unfoldable pub is_space : ℕ → Bool
is_space r =
    (leb 9 r && leb r 13)
    || r == 0x20
    || r == 0x85
    || r == 0xa0
    || r == 0x1680
    || (leb 0x2000 r && leb r 0x200a)
    || r == 0x2028
    || r == 0x2029
    || r == 0x202f
    || r == 0x205f
    || r == 0x3000

-- unicode.IsUpper, for r <= U+00FF
unfoldable pub is_upper_latin : ℕ → Bool
unfolding is_upper
is_upper_latin r = is_upper r || (leb 0xc0 r && leb r 0xd6) || (leb 0xd8 r && leb r 0xde)

-- unicode.IsLower, for r <= U+00FF
unfoldable pub is_lower_latin : ℕ → Bool
unfolding is_lower
is_lower_latin r =
    is_lower r || r == 0xb5 || (leb 0xdf r && leb r 0xf6) || (leb 0xf8 r && leb r 0xff)

-- unicode.IsLetter, for r <= U+00FF
unfoldable pub is_letter_latin : ℕ → Bool
unfolding is_upper_latin is_lower_latin
is_letter_latin r = is_upper_latin r || is_lower_latin r || r == 0xaa || r == 0xba

-- unicode.ToLower, for r <= U+00FF
unfoldable pub to_lower_latin : ℕ → ℕ
unfolding is_upper_latin
to_lower_latin r = if is_upper_latin r then r + 32 else r

-- unicode.ToUpper, for r <= U+00FF
unfoldable pub to_upper_latin : ℕ → ℕ
unfolding is_lower
to_upper_latin r =
    if is_lower r
    then r - 32
    else if r == 0xb5
    then 0x39c
    else if r == 0xff
    then 0x178
    else if (leb 0xe0 r && leb r 0xf6) || (leb 0xf8 r && leb r 0xfe)
    then r - 32
    else r
