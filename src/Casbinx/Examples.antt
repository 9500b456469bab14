-- ===== src/Casbinx/Examples.antt =====
-- An enforcer that takes every rule, and a role with one path.
use sub_sdk.Base.{ℕ, ◌+◌, true, not, some, List, [], ◌∷◌, ◌++◌, select}
use sub_sdk.Go.Text.{Bytes, bytes}
use sub_sdk.Casbinx.{CasbinInfo, Rule, Enforcer}
use sub_sdk.Casbinx.Update.{is_of}

abbrev lists : Enforcer (List Rule)
lists = record {
  load = λ s. s;
  add_policies = λ rules s. (s ++ rules, true);
  get_filtered = λ a s. some (select (is_of a) s);
  remove_filtered = λ a s. (select (λ r. not (is_of a r)) s, true);
}

abbrev digit : ℕ → Bytes
digit n = (b'0' + n) ∷ []

abbrev one_path : List CasbinInfo
one_path = record { path = bytes "/user"; method = bytes "GET" } ∷ []

abbrev two_roles : List Rule
two_roles =
    (bytes "1" ∷ bytes "/role" ∷ bytes "GET" ∷ [])
    ∷ (bytes "2" ∷ bytes "/menu" ∷ bytes "GET" ∷ [])
    ∷ []
