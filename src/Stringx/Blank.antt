-- ===== src/Stringx/Blank.antt =====
-- `IsEmptyOrSpace`, `ContainsAny` and `ContainsWhiteSpace` of stringx/string.go, over runes.
use mathlib.Core.Bool.{false≢true}
use mathlib.Core.List.{reverse, reverse-reverse, reverse-append}
use sub_sdk.Base.{
  ℕ, ◌≡◌, ◌↔◌, refl, sym, ap, ◌∙◌, Bool, true, false, ◌||◌, List, [], ◌∷◌, ◌==◌, All, All-append,
  Bool-cases, inl, inr, if◌then◌else◌, arith,
}
use sub_sdk.Go.Unicode.{is_space}

abbrev pub Runes : Type 0
Runes = List ℕ

-- What `strings.TrimSpace` does at the left end.
trim_left : Runes → Runes
trim_left [] = []
trim_left (r ∷ s) = let rest = trim_left s in if is_space r then rest else r ∷ s

-- strings.TrimSpace
unfoldable pub trim_space : Runes → Runes
unfolding trim_left
trim_space s = reverse (trim_left (reverse (trim_left s)))

abbrev pub is_empty : Runes → Bool
is_empty [] = true
is_empty (r ∷ s) = false

unfoldable pub is_empty_or_space : Runes → Bool
unfolding trim_space
is_empty_or_space s = if is_empty s then true else if is_empty (trim_space s) then true else false

abbrev pub IsBlank : Runes → Type 0
IsBlank = All (λ r. is_space r ≡ true)

trim_left-IsBlank : (s : Runes) → IsBlank s → trim_left s ≡ []
unfolding trim_left
trim_left-IsBlank [] h = refl
trim_left-IsBlank (r ∷ s) (h, hs) = rw h (trim_left-IsBlank s hs)

trim_left_nil : (s : Runes) → trim_left s ≡ [] → IsBlank s
unfolding trim_left
trim_left_nil [] h = tt
trim_left_nil (r ∷ s) h = ground (arith, trim_left_nil s)

IsBlank-reverse : (s : Runes) → IsBlank s → IsBlank (reverse s)
IsBlank-reverse [] h = tt
IsBlank-reverse (r ∷ s) (h, hs) =
    rw (reverse-append (r ∷ []) s)
      (All-append _ (reverse s) (r ∷ []) (IsBlank-reverse s hs) (h, tt))

trim_left_stops : (s : Runes) → IsBlank (trim_left s) → trim_left s ≡ []
unfolding trim_left
trim_left_stops [] h = refl
trim_left_stops (r ∷ s) h = elim (Bool-cases (is_space r)) [
  | inl e ↦ rw e (trim_left_stops s (rw e at h))
  | inr e ↦ absurd (false≢true (sym e ∙ (let b : IsBlank (r ∷ s) = rw e at h in b.0)))
]

reverse-eq-nil : (s : Runes) → reverse s ≡ [] → s ≡ []
reverse-eq-nil s h = sym (reverse-reverse s) ∙ ap reverse h

trim_space-eq-nil : (s : Runes) → trim_space s ≡ [] → IsBlank s
unfolding trim_space
trim_space-eq-nil s h =
    let b = trim_left_nil (reverse (trim_left s)) (reverse-eq-nil _ h) in
    trim_left_nil s (
      trim_left_stops s
        (rw (reverse-reverse (trim_left s)) at (IsBlank-reverse (reverse (trim_left s)) b)))

trim_space-IsBlank : (s : Runes) → IsBlank s → trim_space s ≡ []
unfolding trim_space
trim_space-IsBlank s h = rw (trim_left-IsBlank s h)

is_empty_or_space_sound : (s : Runes) → is_empty_or_space s ≡ true → IsBlank s
unfolding is_empty_or_space
is_empty_or_space_sound [] h = tt
is_empty_or_space_sound (r ∷ s) h = trim_space-eq-nil (r ∷ s) (empty (trim_space (r ∷ s)) h)
  where
    empty : (t : Runes) → (if is_empty t then true else false) ≡ true → t ≡ []
    empty [] p = refl
    empty (x ∷ t) p = cc

-- `IsEmptyOrSpace` is true exactly if every rune is white space, although it only trims both ends.
pub is_empty_or_space_iff : (s : Runes) → (is_empty_or_space s ≡ true) ↔ IsBlank s
unfolding is_empty_or_space
is_empty_or_space_iff s =
    (is_empty_or_space_sound s, λ h. rw (trim_space-IsBlank s h) (ground arith))

-- The set `tmp`: the runes seen so far.
pub contains : Runes → ℕ → Bool
contains [] r = false
contains (x ∷ xs) r = x == r || contains xs r

any_in : Runes → Runes → Bool
unfolding contains
any_in tmp [] = false
any_in tmp (r ∷ s) = let rest = any_in tmp s in if contains tmp r then true else rest

unfoldable pub contains_any : Runes → Runes → Bool
unfolding any_in
contains_any s runes = if is_empty runes then true else any_in runes s

-- WhiteSpace
abbrev pub white_space : Runes
white_space = b'\n' ∷ b'\t' ∷ 12 ∷ 11 ∷ b' ' ∷ []

unfoldable pub contains_white_space : Runes → Bool
contains_white_space s = contains_any s white_space

pub is_empty_or_space_ne :
    (r : ℕ) (s : Runes) → is_space r ≡ false → is_empty_or_space (r ∷ s) ≡ false
is_empty_or_space_ne r s h = elim (Bool-cases (is_empty_or_space (r ∷ s))) [
  | inl e ↦ absurd (false≢true (sym h ∙ (is_empty_or_space_sound (r ∷ s) e).0))
  | inr e ↦ e
]
