-- ===== src/Gormx/Condition.antt =====
-- The conditions of gormx/condition.go that a search query is resolved into.
use sub_sdk.Base.{List, [], ◌∷◌, ◌++◌, Run, done, panic, nil_interface, eqb, if◌then◌else◌}
use sub_sdk.Go.Text.{Bytes}

-- An argument of a placeholder: the pattern of a LIKE, or the value of a field.
module _ {ℓ} (Value : Type ℓ) where
  pub data Arg : Type ℓ where
    pattern_text : Bytes → Arg
    value : Value → Arg

  -- A Go map from SQL text to arguments. Its iteration order is open; here it is that of insertion.
  abbrev pub Clauses : Type ℓ
  Clauses = List (Bytes × List Arg)

  pub record Public : Type ℓ where
    pub where_clauses : Clauses
    pub order : List Bytes
    pub or_clauses : Clauses

  pub record Join : Type ℓ where
    pub join_type : Bytes
    pub join_on : Bytes
    pub public : Public

  pub record Conditions : Type ℓ where
    pub public : Public
    pub joins : List Join

  -- A value of the interface `Condition`: nil, a *GormJoin or a *GormCondition.
  pub data Target : Type ℓ where
    nil_target : Target
    join_target : Public → Target
    root_target : Conditions → Target

module _ {ℓ} {Value : Type ℓ} where
  -- m[k] = v
  unfoldable pub set_clause : Bytes → List (Arg Value) → Clauses Value → Clauses Value
  set_clause k v [] = (k, v) ∷ []
  set_clause k v ((j, w) ∷ m) = if eqb j k then (k, v) ∷ m else (j, w) ∷ set_clause k v m

  abbrev pub empty_public : Public Value
  empty_public = record { where_clauses = []; order = []; or_clauses = [] }

  -- The methods that all conditions have from GormPublic; on a nil interface a call panics.
  on_public : (Public Value → Public Value) → Target Value → Run (Target Value)
  on_public f nil_target = panic nil_interface
  on_public f (join_target p) = done (join_target (f p))
  on_public f (root_target c) = done (root_target (record c { public = f c.public }))

  unfoldable pub set_where : Bytes → List (Arg Value) → Target Value → Run (Target Value)
  unfolding on_public set_clause
  set_where k v = on_public λ p. record p { where_clauses = set_clause k v p.where_clauses }

  unfoldable pub set_or : Bytes → List (Arg Value) → Target Value → Run (Target Value)
  unfolding on_public set_clause
  set_or k v = on_public λ p. record p { or_clauses = set_clause k v p.or_clauses }

  unfoldable pub set_order : Bytes → Target Value → Run (Target Value)
  unfolding on_public
  set_order k = on_public λ p. record p { order = p.order ++ (k ∷ []) }
