-- ===== src/Stringx/Examples.antt =====
-- Short texts and keys.
use sub_sdk.Base.{
  ℕ, ◌+◌, ◌≡◌, ◌↔◌, refl, Bool, true, false, Option, none, some, List, [], ◌∷◌, ◌==◌, All, arith,
}
use sub_sdk.Stringx.Blank.{contains_any, contains_white_space}
use sub_sdk.Stringx.Words.{to_snake, to_camel}
use sub_sdk.Stringx.Identifiers.{left_upper, left_lower, trim_new_line}
use sub_sdk.Go.Case.{lower}
use sub_sdk.Go.Unicode.{is_letter_latin, to_upper_latin, to_lower_latin}
use sub_sdk.Go.Text.{Bytes, bytes, is_upper, is_lower}
use sub_sdk.Go.Split.{join}
use sub_sdk.Go.Unicode.{is_space}
use sub_sdk.Stringx.Blank.{is_empty_or_space, IsBlank, is_empty_or_space_iff}
use sub_sdk.Stringx.Words.{split_by}
use sub_sdk.Stringx.FirstLetter.{title_first_letter}
use sub_sdk.Stringx.Identifiers.{snake_string, camel_string}
use sub_sdk.Stringx.Identifiers.RoundTrip.{snake_string-camel_string}
use sub_sdk.Stringx.Keys.{
  IsSetOfKeys, get_cache_keys_by_id_list, HasKeysOf, get_cache_keys_by_id_list_complete,
}

is_empty_or_space_iff_example : (is_empty_or_space (bytes " a ") ≡ true) ↔ IsBlank (bytes " a ")
is_empty_or_space_iff_example = is_empty_or_space_iff (bytes " a ")

abbrev is_bar : ℕ → Bool
is_bar r = r == b'_'

snake_string-camel_string_example :
    snake_string (camel_string (join (bytes "_") (bytes "user" ∷ bytes "id2" ∷ [])))
    ≡ join (bytes "_") (bytes "user" ∷ bytes "id2" ∷ [])
snake_string-camel_string_example =
    snake_string-camel_string (bytes "user") (bytes "id2" ∷ []) (unfold is_lower in ground arith)

abbrev show : ℕ → Bytes
show n = (b'0' + n) ∷ []

abbrev two_ids : List (Option ℕ)
two_ids = some 1 ∷ none ∷ some 1 ∷ []

abbrev prefixes : List Bytes
prefixes = bytes "user:" ∷ bytes "role:" ∷ []

get_cache_keys_by_id_list_complete_example :
    IsSetOfKeys (get_cache_keys_by_id_list show two_ids prefixes)
    × All (HasKeysOf show (get_cache_keys_by_id_list show two_ids prefixes) prefixes) two_ids
get_cache_keys_by_id_list_complete_example =
    get_cache_keys_by_id_list_complete show two_ids prefixes

documented :
    (snake_string (bytes "XxYY") ≡ bytes "xx_y_y")
    × (camel_string (bytes "xx_y_y") ≡ bytes "XxYY")
    × (camel_string (bytes "xx_yy") ≡ bytes "XxYy")
unfolding snake_string camel_string is_upper is_lower
documented = (refl, refl, refl)

white_space_found :
    (contains_white_space (bytes "a b") ≡ true) × (contains_any (bytes "ab") (bytes "xy") ≡ false)
unfolding contains_white_space contains_any
white_space_found = (refl, refl)

renamed :
    (to_snake is_upper lower (bytes "HelloWorld") ≡ bytes "hello_world")
    × (to_camel title_first_letter (bytes "hello_world") ≡ bytes "HelloWorld")
unfolding to_snake to_camel split_by is_empty_or_space is_space is_upper lower join
    title_first_letter is_letter_latin to_upper_latin is_lower
renamed = (refl, refl)

trimmed :
    (left_upper (bytes "abc") ≡ bytes "Abc")
    × (left_lower (bytes "ABC") ≡ bytes "aBC")
    × (trim_new_line (b'a' ∷ b'\r' ∷ b'\n' ∷ b'b' ∷ []) ≡ bytes "ab")
unfolding left_upper left_lower trim_new_line to_upper_latin to_lower_latin is_upper is_lower
trimmed = (refl, refl, refl)
