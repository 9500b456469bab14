-- ===== src/Response/Agreement.antt =====
-- Where the two readings of an error agree, and what they let through to a client.
use sub_sdk.Base.{ℕ, ◌≡◌, ◌≢◌, refl, true, false, none, some, arith}
use sub_sdk.Go.Text.{Bytes}
use sub_sdk.Errx.Code
use sub_sdk.Errx.{map_err_msg, is_code_err}
use sub_sdk.Respx
use sub_sdk.Response
use sub_sdk.Errx.View.{ErrorView, is_duplicate, passes_message}

-- If errors.As finds what the type assertion finds, and the text does not speak of a duplicate, the two
-- packages answer with the same code and message.
pub parse_errors_agree :
    (err : ErrorView)
    → err.as_code_error ≡ err.cause
    → is_duplicate err.text ≡ false
    → Respx.parse_error err ≡ Response.parse_error err
unfolding Respx.parse_error Response.parse_error
parse_errors_agree err same d = ground arith

-- An error that is neither a *CodeError nor a gRPC status and whose text speaks of a duplicate is the
-- answer Duplicate of respx, while response answers with the common code and the raw text.
pub plain_duplicate_differs :
    (err : ErrorView)
    → err.as_code_error ≡ none
    → err.cause ≡ none
    → err.status ≡ none
    → is_duplicate err.text ≡ true
    → (Respx.parse_error err ≡ (Code.duplicate, map_err_msg Code.duplicate))
      × (Response.parse_error err ≡ (Code.server_common_error, err.text))
unfolding Respx.parse_error Response.parse_error
plain_duplicate_differs err a c s d = (rw (a, s, d), rw (c, s))

-- The code Success is in the switch and not in the table.
success_unknown : is_code_err Code.success ≡ false
unfolding is_code_err
success_unknown = refl

blocked :
    (c : ℕ) → c ≢ Code.no_data → c ≢ Code.err_req → is_code_err c ≡ true → passes_message c ≡ false
unfolding passes_message
blocked c n m k = ground (arith, success_unknown)

-- A status whose code is neither NoData nor ErrReq keeps its message to itself: the answers of both packages are
-- the same for every message.
pub status_message_hidden :
    (err : ErrorView) (c : ℕ) (msg msg' : Bytes)
    → c ≢ Code.no_data
    → c ≢ Code.err_req
    → (Respx.parse_error (record err { status = some (c, msg) })
        ≡ Respx.parse_error (record err { status = some (c, msg') }))
      × (Response.parse_error (record err { status = some (c, msg) })
          ≡ Response.parse_error (record err { status = some (c, msg') }))
unfolding Respx.parse_error Response.parse_error
status_message_hidden err c msg msg' n m =
    (ground (arith, blocked c n m), ground (arith, blocked c n m))
