-- ===== src/Condition/Examples.antt =====
-- Conditions on a struct with an age and a name.
use sub_sdk.Base.{◌≡◌, ◌↔◌, refl, pos, true, false, List, [], ◌∷◌, done, All, eqb}
use sub_sdk.Go.Text.{Bytes, bytes}
use sub_sdk.Go.Number.{parse_int}
use sub_sdk.Condition.{
  Condition, Struct, text, string, int, evaluate_condition, evaluate_from, match_condition,
  compare_int, compare_string, field_by_name,
}
use sub_sdk.Condition.Verdicts.{Passes, evaluate_condition-and}

abbrev person : Struct
person = (bytes "Age", int (pos 30)) ∷ (bytes "Name", string (bytes "ann")) ∷ []

abbrev asks : Bytes → Bytes → Bytes → Bytes → Condition
asks name operator value logic = record {
  field = name;
  operator = operator;
  value = text value;
  logic = logic;
}

abbrev adult_ann : List Condition
adult_ann =
    asks (bytes "Age") (bytes ">=") (bytes "18") (bytes "AND")
    ∷ asks (bytes "Name") (bytes "=") (bytes "ann") (bytes "AND")
    ∷ []

abbrev child_or_bob : List Condition
child_or_bob =
    asks (bytes "Age") (bytes "<") (bytes "18") (bytes "OR")
    ∷ asks (bytes "Name") (bytes "=") (bytes "bob") (bytes "OR")
    ∷ []

evaluate_condition-and_example :
    (evaluate_condition person adult_ann ≡ done true) ↔ All (Passes person) adult_ann
evaluate_condition-and_example = evaluate_condition-and person adult_ann (refl, (refl, tt))

judged :
    (evaluate_condition person adult_ann ≡ done true)
    × (evaluate_condition person (asks (bytes "Age") (bytes "<") (bytes "18") (bytes "AND") ∷ [])
        ≡ done false)
    × (evaluate_condition person child_or_bob ≡ done true)
unfolding evaluate_condition evaluate_from match_condition field_by_name compare_int compare_string
    eqb parse_int
judged = (refl, refl, refl)
