-- ===== src/Cryptx/Replace.antt =====
-- cryptx/decode.go ReplaceStrings, EscapeJson and InStringSlice, over the code points of a text.
pub mod Escape
mod Examples
use sub_sdk.Base.{
  ℕ, zero, suc, Bool, true, false, List, [], ◌∷◌, ◌++◌, ◌==◌, length, eqb, if◌then◌else◌,
}
use sub_sdk.Go.Index.{has_prefix}
use sub_sdk.Stringx.Blank.{Runes, is_empty, trim_space}

-- strings.Replace of the empty text: before the first code points, and at the end.
replace_empty : Runes → ℕ → Runes → Runes
replace_empty new zero s = s
replace_empty new (suc n) [] = new
replace_empty new (suc n) (c ∷ s) = new ++ c ∷ replace_empty new n s

-- strings.Replace of o ∷ old, where the next `skip` code points belong to an occurrence already replaced.
replace_from : ℕ → Runes → Runes → ℕ → ℕ → Runes → Runes
unfolding has_prefix
replace_from o old new n skip [] = []
replace_from o old new n (suc skip) (c ∷ s) = replace_from o old new n skip s
replace_from o old new zero zero (c ∷ s) = c ∷ s
replace_from o old new (suc n) zero (c ∷ s) =
    let found = replace_from o old new n (length old) s in
    let later = replace_from o old new (suc n) 0 s in
    if has_prefix (o ∷ old) (c ∷ s) then new ++ found else c ∷ later

-- strings.Replace(s, old, new, n)
replace : Runes → Runes → ℕ → Runes → Runes
unfolding replace_empty replace_from
replace [] new n s = replace_empty new n s
replace (o ∷ old) new n s = replace_from o old new n 0 s

replace_each : Runes → List Runes → List Runes → Runes
unfolding replace
replace_each s (o ∷ old) (r ∷ new) = replace_each (replace o r 1000 s) old new
replace_each s [] new = s
replace_each s (o ∷ old) [] = s

replace_strings : Runes → List Runes → List Runes → Runes
unfolding replace_each
replace_strings s old new =
    if is_empty s then s else if length old == length new then replace_each s old new else s

special_chars : List Runes
special_chars =
    (0x5c ∷ [])
    ∷ (0x08 ∷ [])
    ∷ (0x0c ∷ [])
    ∷ (0x0a ∷ [])
    ∷ (0x0d ∷ [])
    ∷ (0x09 ∷ [])
    ∷ (0x22 ∷ [])
    ∷ []

-- A backslash and `\`, b, f, n, r, t or a quote.
replace_chars : List Runes
replace_chars =
    (0x5c ∷ 0x5c ∷ [])
    ∷ (0x5c ∷ 0x62 ∷ [])
    ∷ (0x5c ∷ 0x66 ∷ [])
    ∷ (0x5c ∷ 0x6e ∷ [])
    ∷ (0x5c ∷ 0x72 ∷ [])
    ∷ (0x5c ∷ 0x74 ∷ [])
    ∷ (0x5c ∷ 0x22 ∷ [])
    ∷ []

pub escape_json : Runes → Runes
unfolding replace_strings special_chars replace_chars
escape_json s = replace_strings s special_chars replace_chars

any_is : Runes → List Runes → Bool
unfolding trim_space eqb
any_is element [] = false
any_is element (v ∷ slice) =
    let later = any_is element slice in if eqb (trim_space v) element then true else later

in_string_slice : List Runes → Runes → Bool
unfolding trim_space any_is
in_string_slice slice element = any_is (trim_space element) slice
