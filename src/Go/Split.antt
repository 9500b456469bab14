-- ===== src/Go/Split.antt =====
-- `strings.Split` at a separator of one byte, and `strings.Join`.
use sub_sdk.Base.{
  ℕ, ◌≡◌, ◌≢◌, refl, ap, ◌∙◌, List, [], ◌∷◌, ◌++◌, arith, ◌==◌, All, Bool, true, false, sym, ==_iff,
  Bool-cases, inl, inr, if◌then◌else◌,
}
use sub_sdk.Go.Text.{Bytes}

-- The first part, and the parts after it.
prepend : ℕ → List Bytes → List Bytes
prepend c [] = (c ∷ []) ∷ []
prepend c (p ∷ ps) = (c ∷ p) ∷ ps

-- strings.Split(s, string(sep)): never empty.
unfoldable pub split : ℕ → Bytes → List Bytes
unfolding prepend
split sep [] = [] ∷ []
split sep (c ∷ s) = let rest = split sep s in if c == sep then [] ∷ rest else prepend c rest

-- strings.Join(parts, sep)
unfoldable pub join : Bytes → List Bytes → Bytes
join sep [] = []
join sep (p ∷ []) = p
join sep (p ∷ q ∷ ps) = p ++ (sep ++ join sep (q ∷ ps))

abbrev pub Lacks : ℕ → Bytes → Type 0
Lacks b = All (λ c. c ≢ b)

split_part :
    (sep : ℕ) (p rest : Bytes) → Lacks sep p → split sep (p ++ sep ∷ rest) ≡ p ∷ split sep rest
unfolding split
split_part sep [] rest _ = ground arith
split_part sep (c ∷ p) rest (h, hp) = ground (arith, split_part sep p rest hp)

split_last : (sep : ℕ) (p : Bytes) → Lacks sep p → split sep p ≡ p ∷ []
unfolding split
split_last sep [] _ = refl
split_last sep (c ∷ p) (h, hp) = ground (arith, split_last sep p hp)

-- Splitting a join gives back the parts, if none holds the separator.
pub split-join :
    (sep : ℕ) (p : Bytes) (ps : List Bytes)
    → All (Lacks sep) (p ∷ ps)
    → split sep (join (sep ∷ []) (p ∷ ps)) ≡ p ∷ ps
unfolding join
split-join sep p [] (h, _) = split_last sep p h
split-join sep p (q ∷ ps) (h, hs) =
    split_part sep p (join (sep ∷ []) (q ∷ ps)) h ∙ ap (λ l. p ∷ l) (split-join sep q ps hs)

prepend-Lacks :
    (sep c : ℕ) (ps : List Bytes) → c ≢ sep → All (Lacks sep) ps → All (Lacks sep) (prepend c ps)
unfolding prepend
prepend-Lacks sep c [] h hs = ((h, tt), tt)
prepend-Lacks sep c (p ∷ ps) h (l, ls) = ((h, l), ls)

-- No part of a split holds the separator.
pub split-Lacks : (sep : ℕ) (s : Bytes) → All (Lacks sep) (split sep s)
unfolding split
split-Lacks sep [] = (tt, tt)
split-Lacks sep (c ∷ s) = ground (arith, prepend-Lacks sep c (split sep s), split-Lacks sep s)

join-prepend :
    (sep c : ℕ) (p : Bytes) (ps : List Bytes)
    → join (sep ∷ []) (prepend c (p ∷ ps)) ≡ c ∷ join (sep ∷ []) (p ∷ ps)
unfolding join prepend
join-prepend sep c p [] = refl
join-prepend sep c p (q ∷ ps) = refl

pub split_cons : (sep : ℕ) (s : Bytes) → (p : Bytes) × (ps : List Bytes) × (split sep s ≡ p ∷ ps)
unfolding split prepend
split_cons sep [] = ([], [], refl)
split_cons sep (c ∷ s) =
    let (p, ps, e) = split_cons sep s in
    elim (Bool-cases (c == sep)) [
      | inl h ↦ ([], split sep s, rw h refl)
      | inr h ↦ (c ∷ p, ps, rw (h, e) refl)
    ]

join_if :
    (b : Bool) (sep c : ℕ) (parts : List Bytes) (p : Bytes) (ps : List Bytes)
    → parts ≡ p ∷ ps
    → (b ≡ true → c ≡ sep)
    → join (sep ∷ []) (if b then [] ∷ parts else prepend c parts) ≡ c ∷ join (sep ∷ []) parts
unfolding join
join_if true sep c parts p ps e k = rw e (ap (λ x. x ∷ join (sep ∷ []) (p ∷ ps)) (sym (k refl)))
join_if false sep c parts p ps e k = rw e (join-prepend sep c p ps)

-- The parts of a split, joined again, are the text.
pub join-split : (sep : ℕ) (s : Bytes) → join (sep ∷ []) (split sep s) ≡ s
unfolding split join
join-split sep [] = refl
join-split sep (c ∷ s) =
    let (p, ps, e) = split_cons sep s in
    join_if (c == sep) sep c (split sep s) p ps e (λ h. (==_iff c sep).0 h)
    ∙ ap (λ t. c ∷ t) (join-split sep s)
