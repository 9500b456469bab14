-- ===== src/Stringx/Identifiers.antt =====
-- stringx/fmt.go: `SnakeString`, `CamelString`, `LeftUpper`, `LeftLower` and `TrimNewLine`, byte by byte.
pub mod RoundTrip
use sub_sdk.Base.{
  ℕ, ◌-◌, Bool, true, false, not, ◌&&◌, ◌||◌, List, [], ◌∷◌, ◌++◌, ◌==◌, if◌then◌else◌, select, ◌≡◌,
  refl,
}
use sub_sdk.Go.Text.{Bytes, bytes, utf8, is_upper, is_lower}
use sub_sdk.Go.Case.{to_lower}
use sub_sdk.Go.Unicode.{to_lower_latin, to_upper_latin}

-- One round of the loop of `SnakeString` and the rounds after it: `first` is i == 0.
snake_from : Bool → Bool → Bytes → Bytes
snake_from first j [] = []
snake_from first j (d ∷ s) =
    (if not first && is_upper d && j then b'_' ∷ [] else [])
    ++ (d ∷ snake_from false (if d == b'_' then j else true) s)

-- The lower-casing at the end is that of an ASCII text.
unfoldable pub snake_string : Bytes → Bytes
unfolding snake_from to_lower
snake_string s = to_lower (snake_from true false s)

-- num > i && s[i+1] >= 'a' && s[i+1] <= 'z'
next_is_lower : Bytes → Bool
next_is_lower [] = false
next_is_lower (d ∷ s) = is_lower d

-- The value of `k` after the first test of a round.
seen_upper : Bool → ℕ → Bool
seen_upper k d = if not k && is_upper d then true else k

-- Whether a round raises its byte.
raised : Bool → Bool → ℕ → Bool
unfolding seen_upper
raised j k d = is_lower d && (j || not (seen_upper k d))

-- Whether a round drops its byte, an underscore before a lower-case letter.
dropped : Bool → Bool → ℕ → Bytes → Bool
unfolding raised next_is_lower
dropped j k d s =
    (if raised j k d then true else seen_upper k d)
    && (if raised j k d then d - 32 else d) == b'_'
    && next_is_lower s

camel_from : Bool → Bool → Bytes → Bytes
unfolding dropped
camel_from j k [] = []
camel_from j k (d ∷ s) =
    (if dropped j k d s then [] else (if raised j k d then d - 32 else d) ∷ [])
    ++ camel_from (if dropped j k d s then true else if raised j k d then false else j)
        (if raised j k d then true else seen_upper k d) s

unfoldable pub camel_string : Bytes → Bytes
unfolding camel_from
camel_string s = camel_from false false s

-- strings.ToUpper(string(s[0])) + s[1:]: the byte is read as a code point.
unfoldable pub left_upper : Bytes → Bytes
left_upper [] = []
left_upper (b ∷ rest) = utf8 (to_upper_latin b) ++ rest

unfoldable pub left_lower : Bytes → Bytes
left_lower [] = []
left_lower (b ∷ rest) = utf8 (to_lower_latin b) ++ rest

unfoldable pub trim_new_line : Bytes → Bytes
trim_new_line = select (λ c. not (c == b'\r' || c == b'\n'))
