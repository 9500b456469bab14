-- ===== src/Jwtx.antt =====
-- jwtx/jwtx.go. The signing and parsing of golang-jwt are parameters; a time is Unix seconds in an int64.
pub mod Session
mod Examples
use sub_sdk.Base.{
  ℕ, ℤ, add64, half64, ltz, Bool, true, false, ◌&&◌, Option, none, some, List, [], ◌∷◌, ◌++◌, Run,
  done, panic, nil_interface, ◌>>=◌, eqb, ltb, if◌then◌else◌, take, drop, length,
}
use sub_sdk.Go.Text.{Bytes, bytes}
use sub_sdk.Go.Case.{to_upper}

-- SysJwtClaims, with the registered claims that the code sets.
pub record Claims : Type 0 where
  pub user_id : Bytes
  pub role_id : Bytes
  pub dept_id : Bytes
  pub user_name : Bytes
  pub nick_name : Bytes
  pub client_id : Bytes
  pub scope : Bytes
  pub refresh_at : ℤ
  pub expire : ℤ
  pub token_str : Bytes
  pub issuer : Bytes
  pub issued_at : ℤ
  pub expires_at : ℤ

-- The error of a parse: a validation error, with whether its bit for expiry is set, or another one.
pub data JwtError : Type 0 where
  validation : Bool → JwtError
  other_error : JwtError

-- What jwt.ParseWithClaims returns: no token, or a token with its claims and `Valid`; with an error or none.
pub data Parsed : Type 0 where
  no_token : JwtError → Parsed
  token : Claims → Bool → Option JwtError → Parsed

pub record Library : Type 0 where
  pub sign : Claims → Bytes → Option Bytes
  pub parse : ℤ → Bytes → Bytes → Parsed

-- What ParseToken returns: claims, claims with the error checkRefresh, or an error alone.
pub data Checked : Type 0 where
  claims : Claims → Checked
  check_refresh : Claims → Checked
  failed : Checked

-- len(tok) > 6 && strings.ToUpper(tok[0:7]) == "BEARER "
unfoldable pub strip_bearer_prefix : Bytes → Bytes
strip_bearer_prefix tok =
    if ltb 6 (length tok) && eqb (to_upper (take 7 tok)) (bytes "BEARER ") then drop 7 tok else tok

-- The branches on the error and on `Valid`; `token.Claims` of no token is a nil dereference.
check_parsed : Parsed → Run Checked
check_parsed (no_token e) = panic nil_interface
check_parsed (token c valid (some (validation true))) = done (check_refresh c)
check_parsed (token c valid (some (validation false))) = done failed
check_parsed (token c valid (some other_error)) = done failed
check_parsed (token c true none) = done (claims c)
check_parsed (token c false none) = done failed

-- The signed text, which is empty where signing fails and the error is dropped.
pub signed : Option Bytes → Bytes
signed none = []
signed (some t) = t

-- The claims that GetTokenClaims signs.
unfoldable pub issued_claims : Bytes → Bytes → Bytes → ℤ → ℤ → Bytes → Bytes → Bytes → Claims
issued_claims username nick_name issuer iat seconds uid role_id dept_id = record {
  user_id = uid;
  role_id = role_id;
  dept_id = dept_id;
  user_name = username;
  nick_name = nick_name;
  client_id = [];
  scope = [];
  refresh_at = add64 iat (half64 seconds);
  expire = seconds;
  token_str = [];
  issuer = issuer;
  issued_at = iat;
  expires_at = add64 iat seconds;
}

-- The claims of the new token in CheckToken. The clock is read a second time for the issue time.
unfoldable pub refreshed_claims : ℤ → ℤ → Claims → Claims
refreshed_claims now later c = record c {
  expires_at = add64 now c.expire;
  refresh_at = add64 now (half64 c.expire);
  issued_at = later;
}

-- What GetUserIdFromToken, GetRoleIdFromToken and GetDeptIdFromToken make of a parsed token; `none` is the error.
field_of_checked : (Claims → Bytes) → Checked → Option Bytes
field_of_checked field (claims c) = some (field c)
field_of_checked field (check_refresh c) = none
field_of_checked field failed = none

module _ (lib : Library) where
  -- GetTokenClaims
  pub get_token_claims :
      Bytes → Bytes → Bytes → Bytes → ℤ → ℤ → Bytes → Bytes → Bytes → Option Bytes
  unfolding issued_claims
  get_token_claims secret_key username nick_name issuer iat seconds uid role_id dept_id =
      lib.sign (issued_claims username nick_name issuer iat seconds uid role_id dept_id) secret_key

  pub parse_token : ℤ → Bytes → Bytes → Run Checked
  unfolding check_parsed
  parse_token now token_string signing_key =
      check_parsed (lib.parse now (strip_bearer_prefix token_string) signing_key)

  -- CheckToken after the parse: whether the token is good, and a new token if it is past its refresh time.
  check_claims : ℤ → ℤ → Bytes → Checked → Bool × Bytes
  unfolding refreshed_claims signed
  check_claims now later secret_key (claims c) =
      if ltz c.refresh_at now
      then (true, signed (lib.sign (refreshed_claims now later c) secret_key))
      else (true, [])
  check_claims now later secret_key (check_refresh c) = (false, [])
  check_claims now later secret_key failed = (false, [])

  -- The parse reads the clock first, at `parsed_at`.
  pub check_token : ℤ → ℤ → ℤ → Bytes → Bytes → Run (Bool × Bytes)
  unfolding check_claims
  check_token parsed_at now later token_str secret_key = do
    c ← parse_token parsed_at token_str secret_key
    done (check_claims now later secret_key c)

  pub get_user_id_from_token : ℤ → Bytes → Bytes → Run (Option Bytes)
  unfolding field_of_checked
  get_user_id_from_token now token_str secret = do
    c ← parse_token now token_str secret
    done (field_of_checked (λ c. c.user_id) c)

  pub get_role_id_from_token : ℤ → Bytes → Bytes → Run (Option Bytes)
  unfolding field_of_checked
  get_role_id_from_token now token_str secret = do
    c ← parse_token now token_str secret
    done (field_of_checked (λ c. c.role_id) c)

  pub get_dept_id_from_token : ℤ → Bytes → Bytes → Run (Option Bytes)
  unfolding field_of_checked
  get_dept_id_from_token now token_str secret = do
    c ← parse_token now token_str secret
    done (field_of_checked (λ c. c.dept_id) c)
