-- ===== src/Filex/Split/Invariant.antt =====
-- filex/tar.go CompressAndSplitFiles, filex/zip.go ZipDirAndSplit: the parts hold the same pieces as one archive,
-- their names are numbered, and a part is closed once its content reaches the limit.
use sub_sdk.Base.{
  ℕ, ◌+◌, ◌≡◌, ◌∙◌, ◌≤◌, ◌<◌, ap, sym, refl, true, none, List, [], ◌∷◌, ◌++◌, append_assoc,
  append-nil, map, map-append, concat, concat-append, ◌⊎◌, inl, inr, length, length-append, arith,
  All, All-append, Bool-cases, leb→le, leb,
}
use sub_sdk.Go.Text.{Bytes}
use sub_sdk.Go.Path.{join_path}
use sub_sdk.Filex.{got, Step, ◌>>=◌, Node, Names, walk}
use sub_sdk.Filex.Walk.{Visits, Everywhere, listing, walk-got, >>=-eq-got}
use sub_sdk.Filex.Items.{header, body, Items}
use sub_sdk.Filex.Split.{Parts, SplitTarget, closing_part, part_name, when_full, no_parts}

-- The bytes of content in some pieces.
unfoldable pub total : Items → ℕ
total [] = 0
total (header h ∷ items) = total items
total (body bs ∷ items) = length bs + total items

pub total-append : (a b : Items) → total (a ++ b) ≡ total a + total b
unfolding total
total-append [] b = omega arith
total-append (header h ∷ a) b = omega (arith, total-append a b)
total-append (body bs ∷ a) b = omega (arith, total-append a b)

abbrev pub pieces_of : Bytes × Items → Items
pieces_of (name, items) = items

-- All pieces, in the order of the parts.
abbrev pub all_pieces : Parts → Items
all_pieces p = concat (map pieces_of p.closed) ++ p.items

-- No Close of a part has an error.
abbrev pub ClosesAll : SplitTarget → Type 0
ClosesAll t = (path : Bytes) (items : Items) → t.close path items ≡ none

module _ (t : SplitTarget) (suffix : Bytes) where
  -- The path of a part.
  abbrev pub path_of : ℕ → Bytes
  path_of number = join_path t.folder (part_name t.prefix suffix number)

  abbrev pub AreNumbered : ℕ → List (Bytes × Items) → Type 0
  AreNumbered k [] = Unit
  AreNumbered k ((name, items) ∷ parts) = (name ≡ path_of k) × AreNumbered (k + 1) parts

  numbered_snoc :
      (k m : ℕ) (parts : List (Bytes × Items)) (items : Items)
      → AreNumbered k parts
      → m ≡ k + length parts
      → AreNumbered k (parts ++ (path_of m, items) ∷ [])
  numbered_snoc k m [] items _ e = let e' : m ≡ k = omega arith in (ap path_of e', tt)
  numbered_snoc k m (p ∷ parts) items (h, hs) e =
      (h, numbered_snoc (k + 1) m parts items hs (omega arith))

  module _ (max_size : ℕ) where
    abbrev pub IsFull : Bytes × Items → Type 0
    IsFull (name, items) = max_size ≤ total items

    -- An open part with the number and the name that follow the closed ones, its size the bytes in it,
    -- and only full parts closed.
    pub record IsOpen (p : Parts) : Type 0 where
      pub opened : p.is_open ≡ true
      pub named : p.file_name ≡ path_of p.part_number
      pub numbered : AreNumbered 0 p.closed
      pub counted : p.part_number ≡ length p.closed
      pub sized : p.current_size ≡ total p.items
      pub full : All IsFull p.closed

    -- Between two files the open part has not reached the limit, unless that is 0.
    abbrev pub IsBetween : Parts → Type 0
    IsBetween p = IsOpen p × (0 < max_size → p.current_size < max_size)

    -- The state after a part is closed and the next one is open.
    abbrev pub next_part : Parts → Parts
    next_part p = record {
      closed = p.closed ++ (p.file_name, p.items) ∷ [];
      is_open = true;
      file_name = path_of (p.part_number + 1);
      items = [];
      current_size = 0;
      part_number = p.part_number + 1;
    }

    pub all_pieces-next_part : (p : Parts) → all_pieces (next_part p) ≡ all_pieces p
    all_pieces-next_part p = rw (map-append, concat-append, append-nil, append-nil) refl

    pub next_part-IsBetween :
        (p : Parts) → IsOpen p → max_size ≤ p.current_size → IsBetween (next_part p)
    unfolding total
    next_part-IsBetween p o l = (
      record {
        opened = refl;
        named = refl;
        numbered =
            rw o.named (
              numbered_snoc 0 p.part_number p.closed p.items o.numbered (omega (arith, o.counted)));
        counted = rw length-append (omega (arith, o.counted));
        sized = refl;
        full = All-append IsFull p.closed _ o.full (omega (arith, o.sized), tt);
      },
      λ h. h,
    )

    -- More pieces in the open part, and their bytes counted.
    abbrev pub with_items : Items → Parts → Parts
    with_items more p = record p {
      items = p.items ++ more;
      current_size = p.current_size + total more;
    }

    pub with_items-IsOpen : (more : Items) (p : Parts) → IsOpen p → IsOpen (with_items more p)
    with_items-IsOpen more p o = record {
      opened = o.opened;
      named = o.named;
      numbered = o.numbered;
      counted = o.counted;
      sized = omega (arith, o.sized, total-append p.items more);
      full = o.full;
    }

    pub all_pieces-with_items :
        (more : Items) (p : Parts) → all_pieces (with_items more p) ≡ all_pieces p ++ more
    all_pieces-with_items more p = sym (append_assoc (concat (map pieces_of p.closed)) p.items more)

    -- What a visit leaves: the pieces of the node in the open part, and the next part open if that is full.
    abbrev pub Leaves : Items → Parts → Parts → Type 0
    Leaves more s s' =
        ((s' ≡ with_items more s)
          × ((s'.current_size ≡ s.current_size) ⊎ (s'.current_size < max_size)))
        ⊎ ((s' ≡ next_part (with_items more s)) × (max_size ≤ (with_items more s).current_size))

    -- A step that opens the next part.
    abbrev pub IsNext : Step Parts Unit → Type 0
    IsNext next = (p p' : Parts) → p.is_open ≡ true → next p ≡ (p', got tt) → p' ≡ next_part p

    pub when_full-Leaves :
        (next : Step Parts Unit) (more : Items) (s s' : Parts)
        → IsNext next
        → s.is_open ≡ true
        → when_full max_size next (with_items more s) ≡ (s', got tt)
        → Leaves more s s'
    when_full-Leaves next more s s' is_next o h =
        elim (Bool-cases (leb max_size (with_items more s).current_size)) [
          | inl full ↦ inr (is_next (with_items more s) s' o (ground arith), leb→le _ _ full)
          | inr room ↦ inl (ground arith, inr (ground arith))
        ]

    pub Leaves-Appends :
        (more : Items) (s s' : Parts)
        → IsBetween s
        → Leaves more s s'
        → (all_pieces s' ≡ all_pieces s ++ more) × IsBetween s'
    Leaves-Appends more s s' (o, small) (inl (e, c)) = (
      ap (λ q. all_pieces q) e ∙ all_pieces-with_items more s,
      (rw e (with_items-IsOpen more s o), ground arith),
    )
    Leaves-Appends more s s' (o, small) (inr (e, l)) = (
      ap (λ q. all_pieces q) e
          ∙ all_pieces-next_part (with_items more s)
          ∙ all_pieces-with_items more s,
      rw e (next_part-IsBetween (with_items more s) (with_items-IsOpen more s o) l),
    )

    -- The first part, open and empty.
    abbrev pub first_part : Parts
    first_part = record no_parts { is_open = true; file_name = path_of 0 }

    first_part-IsBetween : IsBetween first_part
    unfolding total
    first_part-IsBetween = (
      record {
        opened = refl;
        named = refl;
        numbered = tt;
        counted = refl;
        sized = refl;
        full = tt;
      },
      λ h. h,
    )

    closing_part-got :
        (m : Step Parts Unit) (q p : Parts)
        → ClosesAll t
        → closing_part t m q ≡ (p, got tt)
        → m q ≡ (p, got tt)
    closing_part-got m q p c h =
        let e : (m q).0 ≡ p = rw (← ap (λ r. r.0) h, c (m q).0.file_name (m q).0.items) refl in
        ap (λ r. (r, (m q).1)) e ∙ ap (λ r. (p, r.1)) h

    -- What a run has when it returns no error.
    abbrev pub IsComplete : (Names → Node → Items) → (Node → Type 0) → Node → Parts → Type 0
    IsComplete own Good tree p =
        (all_pieces p ≡ listing own [] tree) × IsBetween p × Everywhere Good tree

    -- The folder, the first part, and the walk.
    pub run-IsComplete :
        (making creating : Step Parts Unit) (visit : Names → Node → Step Parts Unit)
        (own : Names → Node → Items) (Good : Node → Type 0) (tree : Node) (p : Parts)
        → ((q : Parts) → making no_parts ≡ (q, got tt) → q ≡ no_parts)
        → ((q : Parts) → creating no_parts ≡ (q, got tt) → q ≡ first_part)
        → Visits visit own all_pieces IsBetween Good
        → ClosesAll t
        → (making >>= λ _. creating >>= λ _. closing_part t (walk visit [] tree)) no_parts
          ≡ (p, got tt)
        → IsComplete own Good tree p
    run-IsComplete making creating visit own Good tree p m c visits closes h =
        let rest = creating >>= λ _. closing_part t (walk visit [] tree) in
        let (q, h1, h2) = >>=-eq-got making (λ _. rest) no_parts p h in
        let h3 : rest no_parts ≡ (p, got tt) = rw (← m q h1) h2 in
        let (r, h4, h5) =
          >>=-eq-got creating (λ _. closing_part t (walk visit [] tree)) no_parts p h3 in
        let h6 : walk visit [] tree first_part ≡ (p, got tt) =
          closing_part-got (walk visit [] tree) first_part p closes (rw (← c r h4) h5) in
        let (a, good) =
          walk-got visit own all_pieces IsBetween Good visits [] tree first_part p
            first_part-IsBetween h6 in
        (a.0, a.1, good)
