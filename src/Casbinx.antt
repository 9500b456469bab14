-- ===== src/Casbinx.antt =====
-- casbinx/casbin.go: the paths that a role may call. The policies of the enforcer and their table are one state,
-- whose operations are parameters; Casbin() loads the table's policies before each of them.
pub mod Update
mod Examples
use sub_sdk.Base.{
  ℕ, Bool, true, false, Option, none, some, List, [], ◌∷◌, Run, done, panic, out_of_range, ◌>>=◌,
  if◌then◌else◌,
}
use sub_sdk.Go.Text.{Bytes}

pub record CasbinInfo : Type 0 where
  pub path : Bytes
  pub method : Bytes

abbrev pub Rule : Type 0
Rule = List Bytes

-- The methods of casbin.SyncedEnforcer on the policies: the first value of a filter is the authority.
pub record Enforcer {ℓ} (S : Type ℓ) : Type ℓ where
  pub load : S → S
  pub add_policies : List Rule → S → S × Bool
  pub get_filtered : Bytes → S → Option (List Rule)
  pub remove_filtered : Bytes → S → S × Bool

rules_of : Bytes → List CasbinInfo → List Rule
rules_of authority [] = []
rules_of authority (v ∷ infos) = (authority ∷ v.path ∷ v.method ∷ []) ∷ rules_of authority infos

-- CasbinInfo{Path: v[1], Method: v[2]}
info_of : Rule → Run CasbinInfo
info_of (a ∷ p ∷ m ∷ rest) = done (record { path = p; method = m })
info_of rule = panic out_of_range

infos_of : List Rule → Run (List CasbinInfo)
unfolding info_of
infos_of [] = done []
infos_of (r ∷ rules) = do v ← info_of r; vs ← infos_of rules; done (v ∷ vs)

filtered : Option (List Rule) → Run (Option (List CasbinInfo))
unfolding infos_of
filtered none = done none
filtered (some rules) = do vs ← infos_of rules; done (some vs)

-- `itoa` is strconv.Itoa of the authority's number.
module _ {ℓ} {S : Type ℓ} (enforcer : Enforcer S) (itoa : ℕ → Bytes) where
  pub clear_casbin : Bytes → S → S × Bool
  clear_casbin p s = enforcer.remove_filtered p (enforcer.load s)

  -- Whether there was no error.
  pub update_casbin : ℕ → List CasbinInfo → S → S × Bool
  unfolding rules_of
  update_casbin authority infos s =
      enforcer.add_policies (rules_of (itoa authority) infos)
        (enforcer.load (clear_casbin (itoa authority) s).0)

  pub get_casbin_by_authority_id : ℕ → S → S × Run (Option (List CasbinInfo))
  unfolding filtered
  get_casbin_by_authority_id authority s =
      let s' = enforcer.load s in (s', filtered (enforcer.get_filtered (itoa authority) s'))
