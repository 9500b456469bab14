-- ===== src/Format/Examples.antt =====
-- The format GoZero and the format go_zero.
use sub_sdk.Base.{◌≡◌, ◌++◌, refl, arith, eqb}
use sub_sdk.Go.Text.{Bytes, bytes}
use sub_sdk.Go.Split.{join}
use sub_sdk.Go.Case.{to_upper, to_lower}
use sub_sdk.Stringx.FirstLetter.{title_first_letter}
use sub_sdk.Format.{split, styled, lower_style, file_naming_format, ok, get_style}
use sub_sdk.Format.Layout.{file_naming_format_layout}
use sub_sdk.Format.Idempotent.{snake_case_idempotent}

file_naming_format_layout_example :
    file_naming_format title_first_letter
      (bytes "go" ++ (bytes "#" ++ (bytes "zero" ++ bytes ".go")))
      (bytes "user_Name")
    ≡ ok (
        join
          (bytes "#")
          (styled title_first_letter lower_style lower_style (split (bytes "user_Name")))
        ++ bytes ".go")
file_naming_format_layout_example =
    file_naming_format_layout title_first_letter (bytes "go") (bytes "#") (bytes "zero")
      (bytes ".go") (bytes "user_Name") lower_style lower_style (unfold to_upper in refl)
      (unfold to_upper in refl) (unfold to_upper in omega arith)
      (unfold get_style to_lower eqb in refl) (unfold get_style to_lower eqb in refl)

snake_case_idempotent_example :
    (s : Bytes) × (file_naming_format title_first_letter (bytes "go_zero") (bytes "userName")
      ≡ ok s)
    × (file_naming_format title_first_letter (bytes "go_zero") s ≡ ok s)
snake_case_idempotent_example = snake_case_idempotent title_first_letter (bytes "userName")
