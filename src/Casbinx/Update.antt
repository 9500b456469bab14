-- ===== src/Casbinx/Update.antt =====
-- What a role may call after its policies are updated.
use sub_sdk.Base.{◌≡◌, ◌≢◌, Bool, true, false, not, some, List, [], ◌∷◌, ◌++◌, select, All, eqb}
use sub_sdk.Go.Text.{Bytes}
use sub_sdk.Casbinx.{Rule, Enforcer}

-- Whether a rule is one of the authority.
abbrev pub is_of : Bytes → Rule → Bool
is_of a [] = false
is_of a (x ∷ rest) = eqb x a

-- No member is there twice.
abbrev pub AreDistinct {ℓ} : {A : Type ℓ} → List A → Type ℓ
AreDistinct [] = Unit
AreDistinct (x ∷ xs) = All (λ y. x ≢ y) xs × AreDistinct xs

-- What casbin documents of an enforcer whose adapter saves each change: loading changes no policy, a filter on
-- the first value removes and lists the rules of the authority, and rules of which none is there, and none
-- is given twice, are added behind the others.
pub record IsEnforcer {ℓ} {S : Type ℓ} (e : Enforcer S) (policies : S → List Rule) : Type ℓ where
  pub loaded : (s : S) → policies (e.load s) ≡ policies s
  pub removed :
      (a : Bytes) (s : S)
      → policies (e.remove_filtered a s).0 ≡ select (λ r. not (is_of a r)) (policies s)
  pub listed : (a : Bytes) (s : S) → e.get_filtered a s ≡ some (select (is_of a) (policies s))
  pub added :
      (rules : List Rule) (s : S)
      → All (λ r. All (λ q. q ≢ r) (policies s)) rules
      → AreDistinct rules
      → ((e.add_policies rules s).1 ≡ true)
        × (policies (e.add_policies rules s).0 ≡ policies s ++ rules)
