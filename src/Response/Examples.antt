-- ===== src/Response/Examples.antt =====
-- Errors of a database and of a service.
use sub_sdk.Base.{◌≡◌, refl, none}
use sub_sdk.Go.Text.{bytes}
use sub_sdk.Go.Case.{to_lower}
use sub_sdk.Go.Index.{index, has_prefix}
use sub_sdk.Errx.View.{ErrorView, is_duplicate}
use sub_sdk.Respx
use sub_sdk.Response
use sub_sdk.Response.Agreement.{parse_errors_agree}

abbrev timeout : ErrorView
timeout = record { cause = none; as_code_error = none; status = none; text = bytes "timeout" }

abbrev duplicate_key : ErrorView
duplicate_key = record {
  cause = none;
  as_code_error = none;
  status = none;
  text = bytes "Duplicate entry";
}

parse_errors_agree_example : Respx.parse_error timeout ≡ Response.parse_error timeout
parse_errors_agree_example =
    parse_errors_agree timeout refl (unfold is_duplicate index has_prefix to_lower in refl)
