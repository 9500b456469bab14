-- ===== src/Errx/View.antt =====
-- What respx and response read of an error. What the packages of errors and of gRPC show of it is a record.
use sub_sdk.Base.{ℕ, Bool, true, false, ◌||◌, Option, none, some, ◌==◌, if◌then◌else◌}
use sub_sdk.Go.Text.{Bytes, bytes}
use sub_sdk.Go.Case.{to_lower}
use sub_sdk.Go.Index.{index}
use sub_sdk.Errx.Code
use sub_sdk.Errx.{CodeError, map_err_msg}

-- The cause of an error as a *CodeError by a type assertion, the *CodeError that errors.As finds behind the
-- cause, the gRPC status of the cause (its code and message), and the text of the error.
pub record ErrorView : Type 0 where
  pub cause : Option CodeError
  pub as_code_error : Option CodeError
  pub status : Option (ℕ × Bytes)
  pub text : Bytes

-- The first value of `errmsg`, which differs from the message of the table by its comma.
abbrev pub default_message : Bytes
default_message = bytes "服务器开小差啦，稍后再来试一试"

found : Option ℕ → Bool
found none = false
found (some i) = true

-- strings.Contains(strings.ToLower(err.Error()), "duplicate")
unfoldable pub is_duplicate : Bytes → Bool
unfolding found
is_duplicate text = found (index (bytes "duplicate") (to_lower text))

-- An error of the program's own: its own message reaches the client only under the code ErrReq.
unfoldable pub parse_code_error : CodeError → ℕ × Bytes
parse_code_error e =
    if e.err_code == Code.err_req
    then (e.err_code, e.err_msg)
    else (e.err_code, map_err_msg e.err_code)

-- case errx.NoData, errx.Success, errx.ErrReq
unfoldable pub passes_message : ℕ → Bool
passes_message c = c == Code.no_data || c == Code.success || c == Code.err_req
