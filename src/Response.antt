-- ===== src/Response.antt =====
-- `parseError` of response/response.go.
pub mod Agreement
mod Examples
use sub_sdk.Base.{ℕ, Option, none, some, if◌then◌else◌}
use sub_sdk.Go.Text.{Bytes}
use sub_sdk.Errx.Code
use sub_sdk.Errx.{CodeError, map_err_msg, is_code_err}
use sub_sdk.Errx.View.{ErrorView, default_message, is_duplicate, parse_code_error, passes_message}

parse_status : Bytes → Option (ℕ × Bytes) → ℕ × Bytes
unfolding passes_message
parse_status text (some (c, msg)) =
    if is_code_err c
    then (if passes_message c
        then (c, msg)
        else if is_duplicate text
        then (Code.duplicate, map_err_msg Code.duplicate)
        else (Code.server_common_error, map_err_msg c))
    else (Code.server_common_error, default_message)
parse_status text none = (Code.server_common_error, text)

parse_found : ErrorView → Option CodeError → ℕ × Bytes
unfolding parse_status
parse_found err (some e) = parse_code_error e
parse_found err none = parse_status err.text err.status

unfoldable pub parse_error : ErrorView → ℕ × Bytes
unfolding parse_found
parse_error err = parse_found err err.cause
