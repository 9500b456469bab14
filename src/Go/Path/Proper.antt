-- ===== src/Go/Path/Proper.antt =====
-- Paths from the root made of proper names: `Clean` and `Join` keep them.
use sub_sdk.Base.{
  ℕ, ◌≡◌, ◌∙◌, refl, sym, ap, Bool, true, false, List, [], ◌∷◌, ◌++◌, eqb, arith, All, All-append,
  append_assoc, append-nil, All-map,
}
use sub_sdk.Go.Text.{Bytes}
use sub_sdk.Go.Split.{split, join, Lacks, split-join}
use sub_sdk.Go.Path.{
  slash, dot_dot, is_same, push, push_all, reverse_onto, print_path, clean, join_path,
}

-- A name of a file: no slash in it, and neither empty nor "." nor "..".
abbrev pub IsProper : Bytes → Type 0
IsProper name = Lacks slash name × (is_same name ≡ false) × (eqb name dot_dot ≡ false)

push_all_proper :
    (rooted : Bool) (names kept : List Bytes)
    → All IsProper names
    → push_all rooted kept names ≡ reverse_onto kept names
unfolding push_all push reverse_onto
push_all_proper rooted [] kept _ = refl
push_all_proper rooted (name ∷ names) kept ((l, s, d), ps) =
    rw (s, d) (push_all_proper rooted names (name ∷ kept) ps)

reverse_onto_twice :
    (acc kept names : List Bytes)
    → reverse_onto acc (reverse_onto kept names) ≡ reverse_onto (names ++ acc) kept
unfolding reverse_onto
reverse_onto_twice acc kept [] = refl
reverse_onto_twice acc kept (name ∷ names) = reverse_onto_twice acc (name ∷ kept) names

reverse_onto_back : (names : List Bytes) → reverse_onto [] (reverse_onto [] names) ≡ names
unfolding reverse_onto
reverse_onto_back names = reverse_onto_twice [] [] names ∙ append-nil names

-- The text of proper names from the root is clean.
pub clean-print_path :
    (name : Bytes) (names : List Bytes)
    → All IsProper (name ∷ names)
    → clean (print_path true (name ∷ names)) ≡ print_path true (name ∷ names)
unfolding clean print_path eqb
clean-print_path name names ps =
    let names' = name ∷ names in
    let parts : split slash (print_path true names') ≡ [] ∷ names' =
      split-join slash [] names' (tt, All-map (λ n p. p.0) names' ps) in
    ap (λ ns. print_path true (reverse_onto [] (push_all true [] ns))) parts
    ∙ ap (λ ns. print_path true (reverse_onto [] ns)) (push_all_proper true names' [] ps)
    ∙ ap (λ ns. print_path true ns) (reverse_onto_back names')

pub join-append :
    (sep : Bytes) (a : Bytes) (above : List Bytes) (b : Bytes) (below : List Bytes)
    → join sep ((a ∷ above) ++ b ∷ below) ≡ join sep (a ∷ above) ++ (sep ++ join sep (b ∷ below))
unfolding join
join-append sep a [] b below = refl
join-append sep a (c ∷ above) b below =
    ap (λ s. a ++ (sep ++ s)) (join-append sep c above b below)
    ∙ ap (λ s. a ++ s) (sym (append_assoc sep (join sep (c ∷ above)) _))
    ∙ sym (append_assoc a (sep ++ join sep (c ∷ above)) _)

join_path-cons :
    (c : ℕ) (dir name : Bytes) (d : ℕ) (rest : Bytes)
    → name ≡ d ∷ rest
    → join_path (c ∷ dir) name ≡ clean ((c ∷ dir) ++ slash ∷ name)
unfolding join_path
join_path-cons c dir name d rest e = rw e refl

join-cons :
    (sep : Bytes) (d : ℕ) (b : Bytes) (below : List Bytes)
    → (rest : Bytes) × (join sep ((d ∷ b) ∷ below) ≡ d ∷ rest)
unfolding join
join-cons sep d b [] = (b, refl)
join-cons sep d b (n ∷ below) = (b ++ (sep ++ join sep (n ∷ below)), refl)

-- Joining proper names to a path of proper names from the root.
pub join_path-print_path :
    (a : Bytes) (above : List Bytes) (b : Bytes) (below : List Bytes)
    → All IsProper (a ∷ above)
    → All IsProper (b ∷ below)
    → join_path (print_path true (a ∷ above)) (join (slash ∷ []) (b ∷ below))
      ≡ print_path true ((a ∷ above) ++ b ∷ below)
unfolding print_path is_same eqb
join_path-print_path a above [] below pa ((l, s, d), pb) = absurd (ground arith)
join_path-print_path a above (c ∷ b) below pa pb =
    let (rest, e) = join-cons (slash ∷ []) c b below in
    join_path-cons slash (join (slash ∷ []) (a ∷ above)) _ c rest e
    ∙ ap (λ s. clean (slash ∷ s)) (sym (join-append (slash ∷ []) a above (c ∷ b) below))
    ∙ clean-print_path a (above ++ (c ∷ b) ∷ below) (All-append IsProper (a ∷ above) _ pa pb)
