-- ===== src/Go/Number.antt =====
-- `strconv.ParseInt(s, 10, 64)`: a sign, decimal digits, and the range of int64.
use sub_sdk.Base.{
  ℕ, zero, suc, ◌+◌, ◌/◌, ◌%◌, ◌<◌, ap, arith, ◌++◌, sym, ◌∙◌, ◌-◌, ◌*◌, ◌^◌, ◌≡◌, refl, Option,
  none, some, [], ◌∷◌, ◌&&◌, ltb, leb, ◌==◌, if◌then◌else◌, ℤ, pos, negsuc,
}
use sub_sdk.Go.Text.{Bytes, bytes}

digits : Bytes → ℕ → Option ℕ
digits [] n = some n
digits (c ∷ s) n =
    let rest = digits s (n * 10 + (c - b'0')) in if leb b'0' c && leb c b'9' then rest else none

-- The digits after the sign; at least one.
magnitude : Bytes → Option ℕ
unfolding digits
magnitude [] = none
magnitude (c ∷ s) = digits (c ∷ s) 0

positive : Option ℕ → Option ℤ
positive none = none
positive (some n) = if ltb n (2 ^ 63) then some (pos n) else none

negative : Option ℕ → Option ℤ
negative none = none
negative (some n) =
    if n == 0 then some (pos 0) else if leb n (2 ^ 63) then some (negsuc (n - 1)) else none

unfoldable pub parse_int : Bytes → Option ℤ
unfolding magnitude positive negative
parse_int [] = none
parse_int (c ∷ s) =
    if c == b'-'
    then negative (magnitude s)
    else if c == b'+'
    then positive (magnitude s)
    else positive (magnitude (c ∷ s))

parse_int_tests :
    (parse_int (bytes "-12") ≡ some (negsuc 11))
    × (parse_int (bytes "9223372036854775808") ≡ none)
    × (parse_int (bytes "") ≡ none)
    × (parse_int (bytes "1x") ≡ none)
unfolding parse_int
parse_int_tests = (refl, refl, refl, refl)

-- strconv.Itoa(n), and %d of fmt, on a number that is not negative. One round of fuel for each digit,
-- and n + 1 rounds are enough.
show_fuel : ℕ → ℕ → Bytes
show_fuel zero n = []
show_fuel (suc fuel) n =
    let high = show_fuel fuel (n / 10) in
    if ltb n 10 then (n + b'0') ∷ [] else high ++ (n % 10 + b'0') ∷ []

unfoldable pub show : ℕ → Bytes
unfolding show_fuel
show n = show_fuel (n + 1) n

digits_after : Option ℕ → ℕ → Option ℕ
digits_after none c = none
digits_after (some n) c = if leb b'0' c && leb c b'9' then some (n * 10 + (c - b'0')) else none

digits-snoc : (s : Bytes) (c n : ℕ) → digits (s ++ c ∷ []) n ≡ digits_after (digits s n) c
unfolding digits digits_after
digits-snoc [] c n = refl
digits-snoc (d ∷ s) c n = ground (arith, digits-snoc s c (n * 10 + (d - b'0')))

digits-show_fuel : (fuel n : ℕ) → n < fuel → digits (show_fuel fuel n) 0 ≡ some n
unfolding show_fuel digits digits_after
digits-show_fuel zero n h = absurd (omega arith)
digits-show_fuel (suc fuel) n h =
    ground (
      arith,
      digits-show_fuel fuel (n / 10),
      digits-snoc (show_fuel fuel (n / 10)) (n % 10 + b'0') 0,
    )

-- The decimal digits of a number determine it.
pub show_inj : (n m : ℕ) → show n ≡ show m → n ≡ m
unfolding show
show_inj n m e =
    let same : some n ≡ some m =
      sym (digits-show_fuel (n + 1) n (omega arith))
      ∙ ap (λ s. digits s 0) e
      ∙ digits-show_fuel (m + 1) m (omega arith) in
    cc
