-- ===== src/Stringx/Identifiers/RoundTrip.antt =====
-- `SnakeString` undoes `CamelString` on snake-case identifiers.
use sub_sdk.Base.{
  ℕ, ◌-◌, ◌≡◌, refl, sym, ap, ap₂, ◌∙◌, Bool, true, false, not, ◌&&◌, ◌||◌, List, [], ◌∷◌, ◌++◌,
  All, map, leb, arith, concat, append-nil, map-append,
}
use sub_sdk.Go.Text.{Bytes, bytes, is_upper, is_lower}
use sub_sdk.Go.Split.{join}
use sub_sdk.Go.Case.{lower, to_lower}
use sub_sdk.Stringx.Identifiers.{snake_from, snake_string, camel_from, camel_string}

abbrev pub IsTailByte : ℕ → Type 0
IsTailByte c = (is_lower c || (leb b'0' c && leb c b'9')) ≡ true

-- A word: a lower-case letter, then lower-case letters and digits.
abbrev pub IsIdentifierWord : Bytes → Type 0
IsIdentifierWord [] = ⊥
IsIdentifierWord (c ∷ t) = (is_lower c ≡ true) × All IsTailByte t

-- The words after the first, each behind an underscore.
abbrev after : List Bytes → Bytes
after [] = []
after (w ∷ ws) = b'_' ∷ (w ++ after ws)

abbrev titled : Bytes → Bytes
titled [] = []
titled (c ∷ t) = (c - 32) ∷ t

join-after : (w : Bytes) (ws : List Bytes) → join (b'_' ∷ []) (w ∷ ws) ≡ w ++ after ws
unfolding join
join-after w [] = sym (append-nil w)
join-after w (v ∷ ws) = ap (λ l. w ++ (b'_' ∷ l)) (join-after v ws)

camel_tail :
    (t rest : Bytes)
    → All IsTailByte t
    → camel_from false true (t ++ rest) ≡ t ++ camel_from false true rest
unfolding camel_from is_lower is_upper
camel_tail [] rest h = refl
camel_tail (c ∷ t) rest (h, hs) = ground (arith, camel_tail t rest hs)

-- The first letter of a word is raised at the start of the text and after a dropped underscore.
camel_word :
    (j k : Bool) (c : ℕ) (t rest : Bytes)
    → (j || not k) ≡ true
    → is_lower c ≡ true
    → All IsTailByte t
    → camel_from j k ((c ∷ t) ++ rest) ≡ titled (c ∷ t) ++ camel_from false true rest
unfolding camel_from is_lower is_upper
camel_word j k c t rest jk h hs = ground (arith, camel_tail t rest hs)

abbrev AreWords : List Bytes → Type 0
AreWords = All IsIdentifierWord

camel_after :
    (ws : List Bytes) → AreWords ws → camel_from false true (after ws) ≡ concat (map titled ws)
camel_after [] h = unfold camel_from in refl
camel_after ([] ∷ ws) (h, hs) = absurd h
camel_after ((c ∷ t) ∷ ws) ((hc, ht), hs) =
    camel_drop c (t ++ after ws) hc
    ∙ (camel_word true true c t (after ws) refl hc ht
        ∙ ap (λ l. titled (c ∷ t) ++ l) (camel_after ws hs))
  where
    camel_drop :
        (d : ℕ) (s : Bytes)
        → is_lower d ≡ true
        → camel_from false true (b'_' ∷ (d ∷ s)) ≡ camel_from true true (d ∷ s)
    camel_drop d s e = unfold camel_from is_lower is_upper in ground arith

-- The bytes of a word after its first, which no test of `SnakeString` changes.
snake_tail :
    (t rest : Bytes)
    → All IsTailByte t
    → snake_from false true (t ++ rest) ≡ t ++ snake_from false true rest
unfolding snake_from is_lower is_upper
snake_tail [] rest h = refl
snake_tail (c ∷ t) rest (h, hs) = ground (arith, snake_tail t rest hs)

snake_first :
    (c : ℕ) (t rest : Bytes)
    → is_lower c ≡ true
    → All IsTailByte t
    → snake_from true false (titled (c ∷ t) ++ rest) ≡ titled (c ∷ t) ++ snake_from false true rest
unfolding snake_from is_lower is_upper
snake_first c t rest h hs = ground (arith, snake_tail t rest hs)

snake_next :
    (c : ℕ) (t rest : Bytes)
    → is_lower c ≡ true
    → All IsTailByte t
    → snake_from false true (titled (c ∷ t) ++ rest)
      ≡ b'_' ∷ (titled (c ∷ t) ++ snake_from false true rest)
unfolding snake_from is_lower is_upper
snake_next c t rest h hs = ground (arith, snake_tail t rest hs)

snake_after :
    (ws : List Bytes)
    → AreWords ws
    → snake_from false true (concat (map titled ws)) ≡ after (map titled ws)
snake_after [] h = unfold snake_from in refl
snake_after ([] ∷ ws) (h, hs) = absurd h
snake_after ((c ∷ t) ∷ ws) ((hc, ht), hs) =
    snake_next c t (concat (map titled ws)) hc ht
    ∙ ap (λ l. b'_' ∷ (titled (c ∷ t) ++ l)) (snake_after ws hs)

lower_tail : (t : Bytes) → All IsTailByte t → to_lower t ≡ t
unfolding to_lower is_lower is_upper
lower_tail [] h = refl
lower_tail (c ∷ t) (h, hs) = ground (arith, lower_tail t hs)

lower_raised : (c : ℕ) → is_lower c ≡ true → lower (c - 32) ≡ c
unfolding lower is_lower is_upper
lower_raised c h = ground arith

lower_titled : (w : Bytes) → IsIdentifierWord w → to_lower (titled w) ≡ w
unfolding to_lower
lower_titled [] h = absurd h
lower_titled (c ∷ t) (hc, ht) = ap₂ (λ x l. x ∷ l) (lower_raised c hc) (lower_tail t ht)

to_lower-append : (s t : Bytes) → to_lower (s ++ t) ≡ to_lower s ++ to_lower t
unfolding to_lower
to_lower-append s t = map-append lower s t

lower_after : (ws : List Bytes) → AreWords ws → to_lower (after (map titled ws)) ≡ after ws
lower_after [] h = unfold to_lower in refl
lower_after (w ∷ ws) (h, hs) = under _ _ (
    to_lower-append (titled w) (after (map titled ws))
    ∙ ap₂ (λ x l. x ++ l) (lower_titled w h) (lower_after ws hs))
  where
    under : (s t : Bytes) → to_lower s ≡ t → to_lower (b'_' ∷ s) ≡ b'_' ∷ t
    under s t e = unfold to_lower in ap (λ l. b'_' ∷ l) e

camel_eq : (s : Bytes) → camel_string s ≡ camel_from false false s
unfolding camel_string
camel_eq s = refl

snake_eq : (s : Bytes) → snake_string s ≡ to_lower (snake_from true false s)
unfolding snake_string
snake_eq s = refl

-- For words of lower-case letters and digits, each beginning with a letter, joined by single
-- underscores: `SnakeString` gives back the identifier that `CamelString` was given.
pub snake_string-camel_string :
    (w : Bytes) (ws : List Bytes)
    → All IsIdentifierWord (w ∷ ws)
    → snake_string (camel_string (join (bytes "_") (w ∷ ws))) ≡ join (bytes "_") (w ∷ ws)
snake_string-camel_string [] ws (h, hs) = absurd h
snake_string-camel_string (c ∷ t) ws ((hc, ht), hs) =
    ap (λ s. snake_string (camel_string s)) (join-after (c ∷ t) ws)
    ∙ (ap snake_string camel ∙ (snake ∙ sym (join-after (c ∷ t) ws)))
  where
    camel : camel_string ((c ∷ t) ++ after ws) ≡ titled (c ∷ t) ++ concat (map titled ws)
    camel =
        camel_eq ((c ∷ t) ++ after ws)
        ∙ (camel_word false false c t (after ws) refl hc ht
            ∙ ap (λ l. titled (c ∷ t) ++ l) (camel_after ws hs))

    snake : snake_string (titled (c ∷ t) ++ concat (map titled ws)) ≡ (c ∷ t) ++ after ws
    snake =
        snake_eq (titled (c ∷ t) ++ concat (map titled ws))
        ∙ (ap to_lower (
              snake_first c t (concat (map titled ws)) hc ht
              ∙ ap (λ l. titled (c ∷ t) ++ l) (snake_after ws hs))
            ∙ (to_lower-append (titled (c ∷ t)) (after (map titled ws))
                ∙ ap₂ (λ x l. x ++ l) (lower_titled (c ∷ t) (hc, ht)) (lower_after ws hs)))
