-- ===== src/Go/Index.antt =====
-- `strings.Index` and `strings.HasPrefix`; `none` is Go's -1.
use mathlib.Core.Option
use sub_sdk.Base.{
  ℕ, suc, ◌+◌, ◌≡◌, refl, Bool, true, false, ◌&&◌, Option, none, some, [], ◌∷◌, ◌++◌, ◌==◌,
  if◌then◌else◌, length, arith,
}
use sub_sdk.Go.Text.{Bytes}
use sub_sdk.Go.Split.{Lacks}

unfoldable pub has_prefix : Bytes → Bytes → Bool
has_prefix [] s = true
has_prefix (p ∷ ps) [] = false
has_prefix (p ∷ ps) (c ∷ s) = p == c && has_prefix ps s

unfoldable pub index : Bytes → Bytes → Option ℕ
index sub [] = if has_prefix sub [] then some 0 else none
index sub (c ∷ s) =
    let later = Option.map suc (index sub s) in if has_prefix sub (c ∷ s) then some 0 else later

pub has_prefix-append : (p s : Bytes) → has_prefix p (p ++ s) ≡ true
unfolding has_prefix
has_prefix-append [] s = refl
has_prefix-append (c ∷ p) s = ground (arith, has_prefix-append p s)

-- A text that stands first is found at 0.
pub index-append : (c : ℕ) (sub s : Bytes) → index (c ∷ sub) ((c ∷ sub) ++ s) ≡ some 0
unfolding index
index-append c sub s = rw (has_prefix-append (c ∷ sub) s)

-- Before its first byte occurs, a text is not found.
pub index-skip :
    (c : ℕ) (sub before s : Bytes) {i : ℕ}
    → Lacks c before
    → index (c ∷ sub) s ≡ some i
    → index (c ∷ sub) (before ++ s) ≡ some (length before + i)
unfolding index has_prefix
index-skip c sub [] s h e = ground arith
index-skip c sub (b ∷ before) s (h, hs) e = ground (arith, index-skip c sub before s hs e)
