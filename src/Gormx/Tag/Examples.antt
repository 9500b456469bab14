-- ===== src/Gormx/Tag/Examples.antt =====
-- The text of a tag and its parts.
use sub_sdk.Base.{◌≡◌, refl, List, [], ◌∷◌, arith, eqb}
use sub_sdk.Go.Text.{Bytes, bytes}
use sub_sdk.Go.Split.{split, join}
use sub_sdk.Gormx.Tag.{make_tag}
use sub_sdk.Gormx.Tag.RoundTrip.{render, tag_of, make_tag-render}

-- An unknown key, a key with no value, no `on`, and a column that is given twice.
abbrev parts : List (Bytes × List Bytes)
parts =
    (bytes "type", bytes "exact" ∷ [])
    ∷ (bytes "column", bytes "id" ∷ [])
    ∷ (bytes "size", bytes "8" ∷ [])
    ∷ (bytes "join", [])
    ∷ (bytes "column", bytes "name" ∷ [])
    ∷ []

make_tag-render_example : make_tag (render parts) ≡ tag_of parts
make_tag-render_example = make_tag-render parts (ground arith)

read_parts :
    make_tag (render parts)
    ≡ record { type = bytes "exact"; column = bytes "name"; table = []; on = []; join = [] }
unfolding make_tag split join eqb
read_parts = refl

-- The columns of a join.
join_columns : (make_tag (bytes "type:left;on:id:user_id")).on ≡ bytes "id" ∷ bytes "user_id" ∷ []
unfolding make_tag split eqb
join_columns = refl
