-- ===== src/Cryptx/Replace/Examples.antt =====
-- Replacement, escapes and membership of small texts.
use sub_sdk.Base.{ℕ, ◌≡◌, ◌≤◌, refl, true, false, [], ◌∷◌, arith, eqb}
use sub_sdk.Go.Index.{has_prefix}
use sub_sdk.Go.Unicode.{is_space}
use sub_sdk.Stringx.Blank.{Runes, trim_space}
use sub_sdk.Cryptx.Replace.{
  replace_empty, replace_from, replace, replace_each, replace_strings, special_chars, replace_chars,
  escape_json, any_is, in_string_slice,
}
use sub_sdk.Cryptx.Replace.Escape.{count, count-length, escape, escape_json_lem}

-- A backslash, a line feed and a quote.
abbrev text : Runes
text = 0x5c ∷ 0x0a ∷ 0x22 ∷ []

text_few : (c : ℕ) → count c text ≤ 1000
text_few c = ground (arith, count-length c text)

escape_json_lem_example : escape_json text ≡ escape text
escape_json_lem_example = escape_json_lem text text_few

escaped : escape_json text ≡ 0x5c ∷ 0x5c ∷ 0x5c ∷ 0x6e ∷ 0x5c ∷ 0x22 ∷ []
unfolding escape_json replace_strings replace_each replace replace_from has_prefix special_chars
    replace_chars
escaped = refl

-- aaa with aa as b; ab with the empty text as c, at most twice; the third occurrence stays.
replaced :
    (replace (1 ∷ 1 ∷ []) (2 ∷ []) 9 (1 ∷ 1 ∷ 1 ∷ []) ≡ 2 ∷ 1 ∷ [])
    × (replace [] (3 ∷ []) 2 (1 ∷ 2 ∷ []) ≡ 3 ∷ 1 ∷ 3 ∷ 2 ∷ [])
    × (replace (1 ∷ []) (2 ∷ []) 2 (1 ∷ 1 ∷ 1 ∷ []) ≡ 2 ∷ 2 ∷ 1 ∷ [])
unfolding replace replace_empty replace_from has_prefix
replaced = (refl, refl, refl)

-- Lists of different lengths replace nothing.
unpaired : replace_strings text ((0x5c ∷ []) ∷ []) [] ≡ text
unfolding replace_strings
unpaired = refl

member :
    (in_string_slice ((32 ∷ 97 ∷ []) ∷ []) (97 ∷ 32 ∷ []) ≡ true) × (in_string_slice [] [] ≡ false)
unfolding in_string_slice any_is trim_space eqb is_space
member = (refl, refl)
