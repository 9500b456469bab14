-- ===== src/Condition/Verdicts.antt =====
-- What the verdict of `EvaluateCondition` is for lists of AND conditions and of OR conditions.
use sub_sdk.Base.{
  ℕ, Bool, true, not, Option, none, some, List, [], ◌∷◌, Run, done, panic, ◌>>=◌, ◌&&◌, ◌∙◌, eqb,
  All, ◌≡◌, ◌↔◌, ◌⊎◌, inl, inr, refl, arith,
}
use sub_sdk.Go.Text.{bytes}
use sub_sdk.Condition.{
  Condition, Struct, other_value, match_condition, combine, resume, after_match, evaluate_from,
  evaluate_condition,
}

abbrev pub IsAnd : Condition → Type 0
IsAnd c = c.logic ≡ bytes "AND"

abbrev pub IsOr : Condition → Type 0
IsOr c = c.logic ≡ bytes "OR"

-- The condition is skipped or matches.
abbrev pub Passes : Struct → Condition → Type 0
Passes link c = (match_condition link c ≡ done none) ⊎ (match_condition link c ≡ done (some true))

combine_and : (l : List ℕ) (r m : Bool) → l ≡ bytes "AND" → combine l r m ≡ (r && m, not (r && m))
unfolding combine eqb
combine_and l r m e = rw e

-- One condition on the way to the verdict true: it passes, and the rest has that verdict.
and_step :
    (rest : Bool → Run Bool) (l : List ℕ) (m : Run (Option Bool))
    → l ≡ bytes "AND"
    → (m >>= after_match rest l true) ≡ done true
    → ((m ≡ done none) ⊎ (m ≡ done (some true))) × (rest true ≡ done true)
unfolding after_match resume
and_step rest l (done none) e h = (inl refl, h)
and_step rest l (done (some b)) e h = ground (arith, combine_and l true b)
and_step rest l (panic p) e h = cc

and_back :
    (rest : Bool → Run Bool) (l : List ℕ) (m : Run (Option Bool))
    → l ≡ bytes "AND"
    → (m ≡ done none) ⊎ (m ≡ done (some true))
    → (m >>= after_match rest l true) ≡ rest true
unfolding after_match resume
and_back rest l m e (inl h) = rw h
and_back rest l m e (inr h) = rw (h, combine_and l true true e)

module _ (link : Struct) where
  verdict_sound :
      (cs : List Condition)
      → All IsAnd cs
      → evaluate_from link cs true ≡ done true
      → All (Passes link) cs
  unfolding evaluate_from
  verdict_sound [] a h = tt
  verdict_sound (c ∷ cs) (a, as') h =
      let step = and_step (evaluate_from link cs) c.logic (match_condition link c) a h in
      (step.0, verdict_sound cs as' step.1)

  verdict_complete :
      (cs : List Condition)
      → All IsAnd cs
      → All (Passes link) cs
      → evaluate_from link cs true ≡ done true
  unfolding evaluate_from
  verdict_complete [] a h = refl
  verdict_complete (c ∷ cs) (a, as') (p, ps) =
      and_back (evaluate_from link cs) c.logic (match_condition link c) a p
      ∙ verdict_complete cs as' ps

-- A list of AND conditions has the verdict true exactly if each of them is skipped or matches.
pub evaluate_condition-and :
    (link : Struct) (cs : List Condition)
    → All IsAnd cs
    → (evaluate_condition link cs ≡ done true) ↔ All (Passes link) cs
unfolding evaluate_condition
evaluate_condition-and link cs a = (verdict_sound link cs a, verdict_complete link cs a)

-- A condition whose value is no string.
abbrev pub HasOther : List Condition → Type 0
HasOther [] = ⊥
HasOther (c ∷ cs) = (c.value ≡ other_value) ⊎ HasOther cs
