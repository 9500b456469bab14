-- ===== src/Gormx/Tag.antt =====
-- `makeTag` of gormx/condition.go.
pub mod RoundTrip
mod Examples
use sub_sdk.Base.{List, [], ◌∷◌, eqb, if◌then◌else◌}
use sub_sdk.Go.Text.{Bytes, bytes}
use sub_sdk.Go.Split.{split}

pub record SearchTag : Type 0 where
  pub type : Bytes
  pub column : Bytes
  pub table : Bytes
  pub on : List Bytes
  pub join : Bytes

-- &resolveSearchTag{}
abbrev pub empty_tag : SearchTag
empty_tag = record { type = []; column = []; table = []; on = []; join = [] }

-- The switch on ts[0], where ts has more than one part; a part with no colon changes nothing.
set_key : Bytes → List Bytes → SearchTag → SearchTag
set_key k [] r = r
set_key k (v ∷ vs) r =
    if eqb k (bytes "type")
    then record r { type = v }
    else if eqb k (bytes "column")
    then record r { column = v }
    else if eqb k (bytes "table")
    then record r { table = v }
    else if eqb k (bytes "on")
    then record r { on = v ∷ vs }
    else if eqb k (bytes "join")
    then record r { join = v }
    else r

set_part : List Bytes → SearchTag → SearchTag
set_part [] r = r
set_part (k ∷ vs) r = set_key k vs r

parse_parts : List Bytes → SearchTag → SearchTag
unfolding set_part set_key
parse_parts [] r = r
parse_parts (t ∷ parts) r = parse_parts parts (set_part (split b':' t) r)

unfoldable pub make_tag : Bytes → SearchTag
unfolding parse_parts
make_tag tag = parse_parts (split b';' tag) empty_tag
