-- ===== src/Cryptx/Replace/Escape.antt =====
-- cryptx/decode.go EscapeJson against an escape of one code point at a time.
use sub_sdk.Base.{
  ℕ, zero, suc, ◌+◌, ◌≤◌, ◌≡◌, ◌≢◌, refl, ◌∙◌, List, [], ◌∷◌, ◌++◌, ◌==◌, if◌then◌else◌, arith,
  append_assoc, All, map, length,
}
use sub_sdk.Go.Index.{has_prefix}
use sub_sdk.Stringx.Blank.{Runes}
use sub_sdk.Cryptx.Replace.{
  replace_from, replace, replace_each, replace_strings, special_chars, replace_chars, escape_json,
}

-- How often a code point stands in a text.
pub count : ℕ → Runes → ℕ
count c [] = 0
count c (d ∷ s) = let rest = count c s in if c == d then suc rest else rest

pub count-length : (c : ℕ) (s : Runes) → count c s ≤ length s
unfolding count
count-length c [] = ground arith
count-length c (d ∷ s) = ground (arith, count-length c s)

-- Every c of a text becomes `new`.
subst_char : ℕ → Runes → Runes → Runes
subst_char c new [] = []
subst_char c new (d ∷ s) = let rest = subst_char c new s in if c == d then new ++ rest else d ∷ rest

replace_from_no_more : (c : ℕ) (new s : Runes) → replace_from c [] new zero zero s ≡ s
unfolding replace_from
replace_from_no_more c new [] = refl
replace_from_no_more c new (d ∷ s) = refl

replace_from_enough :
    (c : ℕ) (new : Runes) (n : ℕ) (s : Runes)
    → count c s ≤ n
    → replace_from c [] new n 0 s ≡ subst_char c new s
unfolding count subst_char replace_from has_prefix
replace_from_enough c new n [] h = refl
replace_from_enough c new zero (d ∷ s) h =
    ground (arith, replace_from_no_more c new s, replace_from_enough c new zero s)
replace_from_enough c new (suc n) (d ∷ s) h =
    ground (arith, replace_from_enough c new n s, replace_from_enough c new (suc n) s)

count-append : (c : ℕ) (s t : Runes) → count c (s ++ t) ≡ count c s + count c t
unfolding count
count-append c [] t = ground arith
count-append c (d ∷ s) t = ground (arith, count-append c s t)

-- Replacing d does not touch c, if what is put there has no c.
count-subst_char :
    (c d : ℕ) (new s : Runes) → c ≢ d → count c new ≡ 0 → count c (subst_char d new s) ≡ count c s
unfolding count subst_char
count-subst_char c d new [] h k = refl
count-subst_char c d new (e ∷ s) h k =
    ground (arith, count-subst_char c d new s h k, count-append c new (subst_char d new s))

subst_char-append :
    (c : ℕ) (new s t : Runes) → subst_char c new (s ++ t) ≡ subst_char c new s ++ subst_char c new t
unfolding subst_char
subst_char-append c new [] t = refl
subst_char-append c new (d ∷ s) t =
    ground (
      arith,
      subst_char-append c new s t,
      append_assoc new (subst_char c new s) (subst_char c new t),
    )

subst_each : Runes → List ℕ → List Runes → Runes
unfolding subst_char
subst_each s (c ∷ cs) (new ∷ news) = subst_each (subst_char c new s) cs news
subst_each s [] news = s
subst_each s (c ∷ cs) [] = s

-- What is put for an earlier one holds no later one.
Fits : List ℕ → List Runes → Type 0
unfolding count
Fits (c ∷ cs) (new ∷ news) = All (λ d. (d ≢ c) × (count d new ≡ 0)) cs × Fits cs news
Fits [] news = Unit
Fits (c ∷ cs) [] = Unit

counts_kept :
    (c : ℕ) (new s : Runes) (cs : List ℕ)
    → All (λ d. (d ≢ c) × (count d new ≡ 0)) cs
    → All (λ d. count d s ≤ 1000) cs
    → All (λ d. count d (subst_char c new s) ≤ 1000) cs
counts_kept c new s [] _ _ = tt
counts_kept c new s (d ∷ cs) ((ne, k), f) (h, hs) =
    (rw (count-subst_char d c new s ne k) h, counts_kept c new s cs f hs)

replace_each_char :
    (s : Runes) (cs : List ℕ) (news : List Runes)
    → All (λ c. count c s ≤ 1000) cs
    → Fits cs news
    → replace_each s (map (λ c. c ∷ []) cs) news ≡ subst_each s cs news
unfolding replace_each replace subst_each Fits
replace_each_char s [] news _ _ = refl
replace_each_char s (c ∷ cs) [] _ _ = refl
replace_each_char s (c ∷ cs) (new ∷ news) (h, hs) (f, fs) =
    rw (replace_each, replace_from_enough c new 1000 s h)
      (replace_each_char (subst_char c new s) cs news (counts_kept c new s cs f hs) fs)

subst_each-append :
    (s t : Runes) (cs : List ℕ) (news : List Runes)
    → subst_each (s ++ t) cs news ≡ subst_each s cs news ++ subst_each t cs news
unfolding subst_each
subst_each-append s t [] news = refl
subst_each-append s t (c ∷ cs) [] = refl
subst_each-append s t (c ∷ cs) (new ∷ news) =
    rw (subst_char-append c new s t)
      (subst_each-append (subst_char c new s) (subst_char c new t) cs news)

-- A backslash, the control characters that JSON has a letter for, and a quote get a backslash.
escape_char : ℕ → Runes
escape_char c =
    if c == 0x5c
    then 0x5c ∷ 0x5c ∷ []
    else if c == 0x08
    then 0x5c ∷ 0x62 ∷ []
    else if c == 0x0c
    then 0x5c ∷ 0x66 ∷ []
    else if c == 0x0a
    then 0x5c ∷ 0x6e ∷ []
    else if c == 0x0d
    then 0x5c ∷ 0x72 ∷ []
    else if c == 0x09
    then 0x5c ∷ 0x74 ∷ []
    else if c == 0x22
    then 0x5c ∷ 0x22 ∷ []
    else c ∷ []

pub escape : Runes → Runes
unfolding escape_char
escape [] = []
escape (c ∷ s) = escape_char c ++ escape s

abbrev specials : List ℕ
specials = 0x5c ∷ 0x08 ∷ 0x0c ∷ 0x0a ∷ 0x0d ∷ 0x09 ∷ 0x22 ∷ []

specials_fit : Fits specials replace_chars
unfolding Fits replace_chars count
specials_fit = ground arith

subst_each_char : (c : ℕ) → subst_each (c ∷ []) specials replace_chars ≡ escape_char c
unfolding subst_each subst_char escape_char replace_chars
subst_each_char c = ground arith

subst_each-escape : (s : Runes) → subst_each s specials replace_chars ≡ escape s
unfolding escape subst_each subst_char replace_chars
subst_each-escape [] = refl
subst_each-escape (c ∷ s) =
    rw (subst_each-append (c ∷ []) s specials replace_chars, subst_each_char c, subst_each-escape s)
      refl

specials_few : (s : Runes) → ((c : ℕ) → count c s ≤ 1000) → All (λ c. count c s ≤ 1000) specials
specials_few s h = (h _, (h _, (h _, (h _, (h _, (h _, (h _, tt)))))))

-- For a text in which no code point stands more than 1000 times, EscapeJson escapes each of them by
-- itself: the replacements that come later do not touch what the earlier ones put there.
pub escape_json_lem : (s : Runes) → ((c : ℕ) → count c s ≤ 1000) → escape_json s ≡ escape s
unfolding escape_json replace_strings special_chars escape
escape_json_lem [] h = refl
escape_json_lem (c ∷ s) h =
    replace_each_char (c ∷ s) specials replace_chars (specials_few (c ∷ s) h) specials_fit
    ∙ subst_each-escape (c ∷ s)
