-- ===== src/Errx/Code.antt =====
-- errx/errCode.go: the codes.
use sub_sdk.Base.{ℕ}

abbrev pub ok : ℕ
ok = 200

abbrev pub server_common_error : ℕ
server_common_error = 100001

abbrev pub request_param_error : ℕ
request_param_error = 100002

abbrev pub token_expire_error : ℕ
token_expire_error = 100003

abbrev pub token_generate_error : ℕ
token_generate_error = 100004

abbrev pub db_error : ℕ
db_error = 100005

abbrev pub no_data : ℕ
no_data = 100006

abbrev pub duplicate : ℕ
duplicate = 100007

abbrev pub primary_error : ℕ
primary_error = 100008

abbrev pub success : ℕ
success = 0

abbrev pub server_rpc_error : ℕ
server_rpc_error = 500

abbrev pub err_username_pwd_error : ℕ
err_username_pwd_error = 110000

abbrev pub err_generate_token_error : ℕ
err_generate_token_error = 110001

abbrev pub err_auth : ℕ
err_auth = 401

abbrev pub err_req : ℕ
err_req = 100009

abbrev pub err_timeout : ℕ
err_timeout = 110

abbrev pub file_or_directory_not_exist : ℕ
file_or_directory_not_exist = 100010
