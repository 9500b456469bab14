-- ===== src/Go/Text.antt =====
-- Strings as bytes: the UTF-8 bytes of a literal, byte classes, `len`, `strings.TrimSpace`.
use Prim.Native.Char.{code}
use sub_sdk.Base.{
  ℕ, ◌+◌, ◌/◌, ◌%◌, ◌<◌, String, Bool, ◌&&◌, List, [], ◌∷◌, ◌++◌, ltb, leb, if◌then◌else◌,
}

abbrev pub Bytes : Type 0
Bytes = List ℕ

-- The UTF-8 encoding of a code point.
abbrev pub utf8 : ℕ → Bytes
utf8 c =
    if ltb c 0x80
    then c ∷ []
    else if ltb c 0x800
    then (0xc0 + c / 64) ∷ (0x80 + c % 64) ∷ []
    else if ltb c 0x1_0000
    then (0xe0 + c / 4096) ∷ (0x80 + (c / 64) % 64) ∷ (0x80 + c % 64) ∷ []
    else (0xf0 + c / 0x4_0000)
      ∷ (0x80 + (c / 4096) % 64)
      ∷ (0x80 + (c / 64) % 64)
      ∷ (0x80 + c % 64)
      ∷ []

-- The bytes of a literal.
abbrev pub bytes : String → Bytes
bytes String.[] = []
bytes (String.◌∷◌ c s) = utf8 (code c) ++ bytes s

abbrev pub IsAscii : ℕ → Type 0
IsAscii c = c < 0x80

-- c >= 'A' && c <= 'Z'
unfoldable pub is_upper : ℕ → Bool
is_upper c = leb b'A' c && leb c b'Z'

-- c >= 'a' && c <= 'z'
unfoldable pub is_lower : ℕ → Bool
is_lower c = leb b'a' c && leb c b'z'
