-- ===== src/Format/Pieces.antt =====
-- What `split` of format.go gives: no byte but the underscores is lost, and no piece is empty.
use sub_sdk.Base.{
  ℕ, ◌≡◌, ◌≢◌, sym, ap, ◌∙◌, false, not, List, [], ◌∷◌, ◌++◌, ◌==◌, All, All-append, concat,
  concat-append, select, append_assoc, append-nil, drop, Bool-cases, inl, inr,
}
use sub_sdk.Go.Text.{Bytes, is_upper}
use sub_sdk.Format.{flush, split_loop, split}

concat-flush :
    (buffer : Bytes) (list : List Bytes) → concat (flush buffer list) ≡ concat list ++ buffer
unfolding flush
concat-flush [] list = sym (append-nil (concat list))
concat-flush (r ∷ buffer) list = simp (concat-append, append-nil)

concat-split_loop :
    (s buffer : Bytes) (list : List Bytes)
    → concat (split_loop s buffer list) ≡ concat list ++ (buffer ++ select (λ r. not (r == b'_')) s)
unfolding split_loop
concat-split_loop [] buffer list =
    concat-flush buffer list ∙ ap (λ l. concat list ++ l) (sym (append-nil buffer))
concat-split_loop (r ∷ s) buffer list = elim (Bool-cases (r == b'_')) [
  | inl e ↦ rw e (concat-split_loop s [] (flush buffer list) ∙ simp (concat-flush, append_assoc))
  | inr e ↦ elim (Bool-cases (is_upper r)) [
    | inl u ↦
        rw (e, u)
          (concat-split_loop s (r ∷ []) (flush buffer list) ∙ simp (concat-flush, append_assoc))
    | inr u ↦ rw (e, u) (concat-split_loop s (buffer ++ (r ∷ [])) list ∙ simp append_assoc)
  ]
]

-- A piece: not empty, no underscore, and an upper-case letter at its head at most.
abbrev pub IsPiece : Bytes → Type 0
IsPiece p = (p ≢ []) × All (λ r. (r == b'_') ≡ false) p × All (λ r. is_upper r ≡ false) (drop 1 p)

abbrev IsBuffer : Bytes → Type 0
IsBuffer p = All (λ r. (r == b'_') ≡ false) p × All (λ r. is_upper r ≡ false) (drop 1 p)

flush-IsPiece :
    (buffer : Bytes) (list : List Bytes)
    → IsBuffer buffer
    → All IsPiece list
    → All IsPiece (flush buffer list)
unfolding flush
flush-IsPiece [] list b h = h
flush-IsPiece (r ∷ buffer) list b h =
    All-append IsPiece list ((r ∷ buffer) ∷ []) h ((λ e. cc, b.0, b.1), tt)

IsBuffer-append :
    (buffer : Bytes) (r : ℕ)
    → (r == b'_') ≡ false
    → is_upper r ≡ false
    → IsBuffer buffer
    → IsBuffer (buffer ++ (r ∷ []))
IsBuffer-append [] r e u b = ((e, tt), tt)
IsBuffer-append (x ∷ buffer) r e u b =
    (All-append _ (x ∷ buffer) (r ∷ []) b.0 (e, tt), All-append _ buffer (r ∷ []) b.1 (u, tt))

split_loop-IsPiece :
    (s buffer : Bytes) (list : List Bytes)
    → IsBuffer buffer
    → All IsPiece list
    → All IsPiece (split_loop s buffer list)
unfolding split_loop
split_loop-IsPiece [] buffer list b h = flush-IsPiece buffer list b h
split_loop-IsPiece (r ∷ s) buffer list b h = elim (Bool-cases (r == b'_')) [
  | inl e ↦
      rw e (split_loop-IsPiece s [] (flush buffer list) (tt, tt) (flush-IsPiece buffer list b h))
  | inr e ↦ elim (Bool-cases (is_upper r)) [
    | inl u ↦
        rw (e, u)
          (split_loop-IsPiece s (r ∷ []) (flush buffer list) ((e, tt), tt)
            (flush-IsPiece buffer list b h))
    | inr u ↦
        rw (e, u)
          (split_loop-IsPiece s (buffer ++ (r ∷ [])) list (IsBuffer-append buffer r e u b) h)
  ]
]

-- The pieces of a content spell it without its underscores; no piece is empty or holds an
-- underscore, and an upper-case letter can only be the first of its piece.
pub split-pieces :
    (content : Bytes)
    → (concat (split content) ≡ select (λ r. not (r == b'_')) content) × All IsPiece (split content)
unfolding split
split-pieces content =
    (concat-split_loop content [] [], split_loop-IsPiece content [] [] (tt, tt) tt)
