-- ===== src/Go/Path/Suffix.antt =====
-- The extension of a path stands at its end.
use sub_sdk.Base.{
  ◌≡◌, ◌∙◌, refl, sym, ap, some, List, [], ◌∷◌, ◌++◌, append_assoc, append-nil, Option-cases, inl,
  inr, arith,
}
use sub_sdk.Go.Text.{Bytes}
use sub_sdk.Go.Split.{split, join, join-split, split_cons}
use sub_sdk.Go.Path.{slash, last_name, from_dot, ext}

from_dot-suffix : (s e : Bytes) → from_dot s ≡ some e → (before : Bytes) × (s ≡ before ++ e)
unfolding from_dot
from_dot-suffix [] e h = cc
from_dot-suffix (c ∷ s) e h = elim (Option-cases (from_dot s)) [
  | inl n ↦ ([], ground arith)
  | inr (e', f) ↦
      let (before, same) = from_dot-suffix s e' f in
      let same_ext : e' ≡ e = ground arith in
      (c ∷ before, ap (λ t. c ∷ t) (same ∙ ap (λ t. before ++ t) same_ext))
]

last_name-suffix :
    (p : Bytes) (ps : List Bytes)
    → (before : Bytes) × (join (slash ∷ []) (p ∷ ps) ≡ before ++ last_name p ps)
unfolding join
last_name-suffix p [] = ([], refl)
last_name-suffix p (q ∷ ps) =
    let (before, e) = last_name-suffix q ps in
    (p ++ slash ∷ before, ap (λ t. p ++ slash ∷ t) e ∙ sym (append_assoc p (slash ∷ before) _))

pub ext-suffix : (path : Bytes) → (before : Bytes) × (path ≡ before ++ ext path)
unfolding ext
ext-suffix path =
    let (p, ps, e) = split_cons slash path in
    let (before, j) = last_name-suffix p ps in
    let whole : path ≡ before ++ last_name [] (split slash path) =
      sym (join-split slash path)
      ∙ ap (λ l. join (slash ∷ []) l) e
      ∙ j
      ∙ ap (λ l. before ++ last_name [] l) (sym e) in
    elim (Option-cases (from_dot (last_name [] (split slash path)))) [
      | inl n ↦ (path, rw (ext, n) (sym (append-nil path)))
      | inr (x, f) ↦
          let (b', g) = from_dot-suffix (last_name [] (split slash path)) x f in
          (
            before ++ b',
            rw (ext, f) (whole ∙ ap (λ t. before ++ t) g ∙ sym (append_assoc before b' x)),
          )
    ]
