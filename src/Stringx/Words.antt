-- ===== src/Stringx/Words.antt =====
-- `splitBy`, `ToSnake` and `ToCamel` of stringx/string.go.
use sub_sdk.Base.{
  ℕ, ◌≡◌, ◌≢◌, sym, ap, ◌∙◌, Bool, true, false, not, List, [], ◌∷◌, ◌++◌, ◌==◌, All, All-append,
  Bool-cases, inl, inr, if◌then◌else◌, map, concat, concat-append, select, append_assoc, append-nil,
  drop,
}
use sub_sdk.Go.Text.{bytes}
use sub_sdk.Go.Split.{join}
use sub_sdk.Stringx.Blank.{Runes, is_empty, is_empty_or_space}

-- if buffer.Len() != 0 { list = append(list, buffer.String()) }
flush : Runes → List Runes → List Runes
flush buffer list = if is_empty buffer then list else list ++ (buffer ∷ [])

module _ (fn : ℕ → Bool) (remove : Bool) where
  split_loop : Runes → Runes → List Runes → List Runes
  unfolding flush
  split_loop [] buffer list = flush buffer list
  split_loop (r ∷ s) buffer list =
      split_loop s (if fn r then (if remove then [] else r ∷ []) else buffer ++ (r ∷ []))
        (if fn r then flush buffer list else list)

  unfoldable pub split_by : Runes → List Runes
  unfolding split_loop
  split_by s = if is_empty_or_space s then [] else split_loop s [] []

module _ (unicode_is_upper : ℕ → Bool) (unicode_to_lower : ℕ → ℕ) where
  unfoldable pub to_snake : Runes → Runes
  to_snake s = join (bytes "_") (map (map unicode_to_lower) (split_by unicode_is_upper false s))

unfoldable pub to_camel : (Runes → Runes) → Runes → Runes
to_camel title s = join [] (map title (split_by (λ r. r == b'_') true s))

concat-flush :
    (buffer : Runes) (list : List Runes) → concat (flush buffer list) ≡ concat list ++ buffer
unfolding flush
concat-flush [] list = sym (append-nil (concat list))
concat-flush (r ∷ buffer) list = simp (concat-append, append-nil)

module _ (fn : ℕ → Bool) where
  concat-split_loop-keep :
      (s buffer : Runes) (list : List Runes)
      → concat (split_loop fn false s buffer list) ≡ concat list ++ (buffer ++ s)
  unfolding split_loop
  concat-split_loop-keep [] buffer list =
      concat-flush buffer list ∙ ap (λ l. concat list ++ l) (sym (append-nil buffer))
  concat-split_loop-keep (r ∷ s) buffer list = elim (Bool-cases (fn r)) [
    | inl e ↦
        rw e (
          concat-split_loop-keep s (r ∷ []) (flush buffer list) ∙ simp (concat-flush, append_assoc))
    | inr e ↦ rw e (concat-split_loop-keep s (buffer ++ (r ∷ [])) list ∙ simp append_assoc)
  ]

  concat-split_loop-drop :
      (s buffer : Runes) (list : List Runes)
      → concat (split_loop fn true s buffer list)
        ≡ concat list ++ (buffer ++ select (λ r. not (fn r)) s)
  unfolding split_loop
  concat-split_loop-drop [] buffer list =
      concat-flush buffer list ∙ ap (λ l. concat list ++ l) (sym (append-nil buffer))
  concat-split_loop-drop (r ∷ s) buffer list = elim (Bool-cases (fn r)) [
    | inl e ↦
        rw e (concat-split_loop-drop s [] (flush buffer list) ∙ simp (concat-flush, append_assoc))
    | inr e ↦ rw e (concat-split_loop-drop s (buffer ++ (r ∷ [])) list ∙ simp append_assoc)
  ]

  -- The text is not blank: no rune is lost. With `remove` false the pieces spell the whole text, and
  -- with `remove` true they spell the text without the runes that `fn` selects.
  pub concat-split_by :
      (s : Runes)
      → is_empty_or_space s ≡ false
      → (concat (split_by fn false s) ≡ s)
        × (concat (split_by fn true s) ≡ select (λ r. not (fn r)) s)
  unfolding split_by
  concat-split_by s h =
      (rw h (concat-split_loop-keep s [] []), rw h (concat-split_loop-drop s [] []))

  flush-All :
      (P : Runes → Type 0) (buffer : Runes) (list : List Runes)
      → (buffer ≢ [] → P buffer)
      → All P list
      → All P (flush buffer list)
  unfolding flush
  flush-All P [] list h hs = hs
  flush-All P (r ∷ buffer) list h hs = All-append P list ((r ∷ buffer) ∷ []) hs (h (λ e. cc), tt)

  -- A piece with nothing that `fn` selects, and one with such a rune at its head at most.
  abbrev pub IsClean : Runes → Type 0
  IsClean p = (p ≢ []) × All (λ r. fn r ≡ false) p

  abbrev pub IsWord : Runes → Type 0
  IsWord p = (p ≢ []) × All (λ r. fn r ≡ false) (drop 1 p)

  split_loop-IsClean :
      (s buffer : Runes) (list : List Runes)
      → All (λ r. fn r ≡ false) buffer
      → All IsClean list
      → All IsClean (split_loop fn true s buffer list)
  unfolding split_loop
  split_loop-IsClean [] buffer list b h = flush-All _ buffer list (λ ne. (ne, b)) h
  split_loop-IsClean (r ∷ s) buffer list b h = elim (Bool-cases (fn r)) [
    | inl e ↦
        rw e (
          split_loop-IsClean s [] (flush buffer list) tt
            (flush-All _ buffer list (λ ne. (ne, b)) h))
    | inr e ↦
        rw e (
          split_loop-IsClean s (buffer ++ (r ∷ [])) list (All-append _ buffer (r ∷ []) b (e, tt)) h)
  ]

  tail-append :
      (buffer : Runes) (r : ℕ)
      → fn r ≡ false
      → All (λ x. fn x ≡ false) (drop 1 buffer)
      → All (λ x. fn x ≡ false) (drop 1 (buffer ++ (r ∷ [])))
  tail-append [] r e h = tt
  tail-append (x ∷ buffer) r e h = All-append _ buffer (r ∷ []) h (e, tt)

  split_loop-IsWord :
      (s buffer : Runes) (list : List Runes)
      → All (λ r. fn r ≡ false) (drop 1 buffer)
      → All IsWord list
      → All IsWord (split_loop fn false s buffer list)
  unfolding split_loop
  split_loop-IsWord [] buffer list b h = flush-All _ buffer list (λ ne. (ne, b)) h
  split_loop-IsWord (r ∷ s) buffer list b h = elim (Bool-cases (fn r)) [
    | inl e ↦ rw e (
        split_loop-IsWord s (r ∷ []) (flush buffer list) tt
          (flush-All _ buffer list (λ ne. (ne, b)) h))
    | inr e ↦ rw e (split_loop-IsWord s (buffer ++ (r ∷ [])) list (tail-append buffer r e b) h)
  ]

  -- No piece is empty. With `remove` true no piece holds a rune that `fn` selects; with `remove`
  -- false such a rune can only be the first of its piece.
  pub split_by-pieces :
      (s : Runes) → All IsClean (split_by fn true s) × All IsWord (split_by fn false s)
  unfolding split_by
  split_by-pieces s = elim (Bool-cases (is_empty_or_space s)) [
    | inl e ↦ rw e (tt, tt)
    | inr e ↦ rw e (split_loop-IsClean s [] [] tt tt, split_loop-IsWord s [] [] tt tt)
  ]
