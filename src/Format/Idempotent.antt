-- ===== src/Format/Idempotent.antt =====
-- The format go_zero, which makes a name snake case.
use sub_sdk.Base.{
  ℕ, ◌≡◌, ◌≢◌, refl, sym, ap, ap₂, ◌∙◌, false, List, [], ◌∷◌, ◌++◌, ◌==◌, All, map, eqb_refl,
  append_assoc, append-nil, arith,
}
use sub_sdk.Go.Text.{Bytes, bytes, is_upper}
use sub_sdk.Go.Split.{join}
use sub_sdk.Go.Case.{lower, to_lower, to_upper}
use sub_sdk.Format.{
  flush, split_loop, split, ok, styled, get_style, transfer_to, file_naming_format, lower_style,
}
use sub_sdk.Format.Pieces.{IsPiece, split-pieces}
use sub_sdk.Format.Layout.{file_naming_format_layout}

abbrev IsPlainByte : ℕ → Type 0
IsPlainByte r = ((r == b'_') ≡ false) × (is_upper r ≡ false)

abbrev IsPlain : Bytes → Type 0
IsPlain p = (p ≢ []) × All IsPlainByte p

split_plain_byte :
    (r : ℕ) (s buffer : Bytes) (list : List Bytes)
    → IsPlainByte r
    → split_loop (r ∷ s) buffer list ≡ split_loop s (buffer ++ (r ∷ [])) list
unfolding split_loop
split_plain_byte r s buffer list (e, u) = rw (e, u)

split_plain :
    (p rest buffer : Bytes) (list : List Bytes)
    → All IsPlainByte p
    → split_loop (p ++ rest) buffer list ≡ split_loop rest (buffer ++ p) list
split_plain [] rest buffer list h = ap (λ b. split_loop rest b list) (sym (append-nil buffer))
split_plain (r ∷ p) rest buffer list (b, h) =
    split_plain_byte r (p ++ rest) buffer list b
    ∙ (split_plain p rest (buffer ++ (r ∷ [])) list h
        ∙ ap (λ b. split_loop rest b list) (append_assoc buffer (r ∷ []) p))

flush_plain : (p : Bytes) (list : List Bytes) → p ≢ [] → flush p list ≡ list ++ (p ∷ [])
unfolding flush
flush_plain [] list h = absurd (h refl)
flush_plain (r ∷ p) list h = refl

-- Pieces in lower case are found again in their join.
split_loop-join :
    (p : Bytes) (ps list : List Bytes)
    → All IsPlain (p ∷ ps)
    → split_loop (join (b'_' ∷ []) (p ∷ ps)) [] list ≡ list ++ (p ∷ ps)
unfolding join
split_loop-join p [] list ((ne, h), hs) =
    ap (λ s. split_loop s [] list) (sym (append-nil p))
    ∙ (split_plain p [] [] list h ∙ (unfold split_loop in flush_plain p list ne))
split_loop-join p (q ∷ ps) list ((ne, h), hs) =
    split_plain p (b'_' ∷ join (b'_' ∷ []) (q ∷ ps)) [] list h
    ∙ (at_underscore p (join (b'_' ∷ []) (q ∷ ps)) list ne
        ∙ (split_loop-join q ps (list ++ (p ∷ [])) hs ∙ append_assoc list (p ∷ []) (q ∷ ps)))
  where
    at_underscore :
        (b s : Bytes) (l : List Bytes)
        → b ≢ []
        → split_loop (b'_' ∷ s) b l ≡ split_loop s [] (l ++ (b ∷ []))
    at_underscore b s l n = unfold split_loop in ap (split_loop s []) (flush_plain b l n)

lower_plain : (r : ℕ) → (r == b'_') ≡ false → IsPlainByte (lower r)
unfolding lower is_upper
lower_plain r h = ground arith

lower-lower : (r : ℕ) → lower (lower r) ≡ lower r
unfolding lower is_upper
lower-lower r = ground arith

to_lower-to_lower : (p : Bytes) → to_lower (to_lower p) ≡ to_lower p
unfolding to_lower
to_lower-to_lower [] = refl
to_lower-to_lower (r ∷ p) = ap₂ (λ x l. x ∷ l) (lower-lower r) (to_lower-to_lower p)

to_lower-IsPlain : (p : Bytes) → IsPiece p → IsPlain (to_lower p)
unfolding to_lower
to_lower-IsPlain p (ne, h, u) = (nonempty p ne, All-lower p h)
  where
    nonempty : (q : Bytes) → q ≢ [] → map lower q ≢ []
    nonempty [] n e = n refl
    nonempty (r ∷ q) n e = cc

    All-lower : (q : Bytes) → All (λ r. (r == b'_') ≡ false) q → All IsPlainByte (map lower q)
    All-lower [] k = tt
    All-lower (r ∷ q) (k, ks) = (lower_plain r k, All-lower q ks)

All-to_lower : (ps : List Bytes) → All IsPiece ps → All IsPlain (map to_lower ps)
All-to_lower [] h = tt
All-to_lower (p ∷ ps) (h, hs) = (to_lower-IsPlain p h, All-to_lower ps hs)

map-to_lower : (ps : List Bytes) → map to_lower (map to_lower ps) ≡ map to_lower ps
map-to_lower [] = refl
map-to_lower (p ∷ ps) = ap₂ (λ x l. x ∷ l) (to_lower-to_lower p) (map-to_lower ps)

split-join : (ps : List Bytes) → All IsPlain ps → split (join (b'_' ∷ []) ps) ≡ ps
unfolding split
split-join [] h = unfold split_loop join in refl
split-join (p ∷ ps) h = split_loop-join p ps [] h

module _ (title : Bytes → Bytes) where
  styled-lower : (ps : List Bytes) → styled title lower_style lower_style ps ≡ map to_lower ps
  unfolding transfer_to
  styled-lower [] = refl
  styled-lower (p ∷ ps) = refl

  lower_flag : (flag : Bytes) → to_lower flag ≡ flag → get_style title flag ≡ ok lower_style
  unfolding get_style
  lower_flag flag e = rw (e, e, eqb_refl flag)

  snake_case :
      (content : Bytes)
      → file_naming_format title (bytes "go_zero") content
        ≡ ok (join (b'_' ∷ []) (map to_lower (split content)))
  snake_case content =
      file_naming_format_layout title (bytes "go") (bytes "_") (bytes "zero") [] content lower_style
        lower_style (unfold to_upper in refl) (unfold to_upper in refl)
        (unfold to_upper in omega arith) (lower_flag (bytes "go") (unfold to_lower in refl))
        (lower_flag (bytes "zero") (unfold to_lower in refl))
      ∙ ap ok (append-nil _ ∙ ap (join (b'_' ∷ [])) (styled-lower (split content)))

  -- The format go_zero accepts every content, and formatting its result again changes nothing.
  pub snake_case_idempotent :
      (content : Bytes)
      → (s : Bytes) × (file_naming_format title (bytes "go_zero") content ≡ ok s)
        × (file_naming_format title (bytes "go_zero") s ≡ ok s)
  snake_case_idempotent content =
      let ps = map to_lower (split content) in
      (
        join (b'_' ∷ []) ps,
        snake_case content,
        snake_case (join (b'_' ∷ []) ps)
            ∙ ap (λ l. ok (join (b'_' ∷ []) l))
                (ap (map to_lower)
                    (split-join ps (All-to_lower (split content) (split-pieces content).1))
                  ∙ map-to_lower (split content)),
      )
