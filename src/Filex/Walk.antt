-- ===== src/Filex/Walk.antt =====
-- filepath.Walk with the functions of filex: what a whole walk appends and keeps, from what one visit does.
use sub_sdk.Base.{◌≡◌, ◌∙◌, ap, refl, [], ◌∷◌, ◌++◌, append_assoc, append-nil, arith}
use sub_sdk.Filex.{
  Res, got, failed, Step, ◌>>=◌, Node, Entries, file, dir, sealed, link, special, broken, end,
  entry, Names, walk, walk_entries,
}
use sub_sdk.Filex.Items.{Items}

-- The pieces of a tree, each directory before what it holds, from the pieces of each node.
module _ (own : Names → Node → Items) where
  unfoldable mutual
    pub listing : Names → Node → Items
    listing names (dir mode es) = own names (dir mode es) ++ listing_entries names es
    listing names node = own names node

    pub listing_entries : Names → Entries → Items
    listing_entries names end = []
    listing_entries names (entry name node rest) =
        listing (names ++ name ∷ []) node ++ listing_entries names rest

-- Every node of a tree has a property.
module _ (P : Node → Type 0) where
  abbrev mutual
    pub Everywhere : Node → Type 0
    Everywhere (dir mode es) = P (dir mode es) × EachEverywhere es
    Everywhere node = P node

    pub EachEverywhere : Entries → Type 0
    EachEverywhere end = Unit
    EachEverywhere (entry name node rest) = Everywhere node × EachEverywhere rest

-- The rest of a chain, after a step that has run.
abbrev pub after : {S A B : Type 0} → (A → Step S B) → S × Res A → S × Res B
after k x = let (s, r) = x in elim r [ got a ↦ k a s | failed e ↦ (s, failed e) ]

bind-eq-got :
    {S B : Type 0} (r : S × Res Unit) (k : Unit → Step S B) (t : S) {b : B}
    → (elim r.1 [ got a ↦ k a r.0 | failed e ↦ (r.0, failed e) ]) ≡ (t, got b)
    → (u : S) × (r ≡ (u, got tt)) × (k tt u ≡ (t, got b))
bind-eq-got (u, got a) k t h = (u, refl, h)
bind-eq-got (u, failed e) k t h = cc

-- Inversion of a chain that gives a result.
pub >>=-eq-got :
    {S B : Type 0} (m : Step S Unit) (k : Unit → Step S B) (s t : S) {b : B}
    → (m >>= k) s ≡ (t, got b)
    → (u : S) × (m s ≡ (u, got tt)) × (k tt u ≡ (t, got b))
>>=-eq-got m k s t h = bind-eq-got (m s) k t h

module _ {S : Type 0} (visit : Names → Node → Step S Unit) (own : Names → Node → Items)
    (written : S → Items) (Inv : S → Type 0) (Good : Node → Type 0) where
  -- From s to s' the pieces were appended, and the invariant still holds.
  abbrev pub Appends : S → S → Items → Type 0
  Appends s s' items = (written s' ≡ written s ++ items) × Inv s'

  -- What one visit that returns no error does.
  abbrev pub Visits : Type 0
  Visits =
      (names : Names) (node : Node) (s s' : S)
      → Inv s
      → visit names node s ≡ (s', got tt)
      → Appends s s' (own names node) × Good node

  compose : (s u s' : S) (a b : Items) → Appends s u a → Appends u s' b → Appends s s' (a ++ b)
  compose s u s' a b (e1, _) (e2, i) = (e2 ∙ ap (λ l. l ++ b) e1 ∙ append_assoc (written s) a b, i)

  module _ (visits : Visits) where
    mutual
      unfolding walk listing

      pub walk-got :
          (names : Names) (node : Node) (s s' : S)
          → Inv s
          → walk visit names node s ≡ (s', got tt)
          → Appends s s' (listing own names node) × Everywhere Good node
      walk-got names (file mode r) s s' i h = visits names (file mode r) s s' i h
      walk-got names (sealed mode e) s s' i h = visits names (sealed mode e) s s' i h
      walk-got names (link mode t r) s s' i h = visits names (link mode t r) s s' i h
      walk-got names (special mode e r) s s' i h = visits names (special mode e r) s s' i h
      walk-got names (broken e) s s' i h = visits names (broken e) s s' i h
      walk-got names (dir mode es) s s' i h =
          let (u, h1, h2) =
            >>=-eq-got (visit names (dir mode es)) (λ _. walk_entries visit names es) s s' h in
          let (a1, g) = visits names (dir mode es) s u i h1 in
          let (a2, gs) = walk_entries-got names es u s' a1.1 h2 in
          (compose s u s' (own names (dir mode es)) (listing_entries own names es) a1 a2, (g, gs))

      walk_entries-got :
          (names : Names) (es : Entries) (s s' : S)
          → Inv s
          → walk_entries visit names es s ≡ (s', got tt)
          → Appends s s' (listing_entries own names es) × EachEverywhere Good es
      walk_entries-got names end s s' i h = (((rw append-nil (ground arith)), ground arith), tt)
      walk_entries-got names (entry name node rest) s s' i h =
          let inner = names ++ name ∷ [] in
          let (u, h1, h2) =
            >>=-eq-got (walk visit inner node) (λ _. walk_entries visit names rest) s s' h in
          let (a1, g) = walk-got inner node s u i h1 in
          let (a2, gs) = walk_entries-got names rest u s' a1.1 h2 in
          (compose s u s' (listing own inner node) (listing_entries own names rest) a1 a2, (g, gs))
