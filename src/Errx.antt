-- ===== src/Errx.antt =====
-- errx: the error codes and their messages, and the errors that carry them.
pub mod Code
pub mod View
mod Examples
use sub_sdk.Base.{ℕ, Bool, true, false, ◌||◌, List, [], ◌∷◌, ◌==◌, if◌then◌else◌}
use sub_sdk.Go.Text.{Bytes, bytes}

-- The fallback of MapErrMsg
abbrev pub busy_message : Bytes
busy_message = bytes "服务器开小差啦,稍后再来试一试"

-- The map that `init` fills.
pub message : List (ℕ × Bytes)
message =
    (Code.ok, bytes "SUCCESS")
    ∷ (Code.server_common_error, bytes "服务器开小差啦,稍后再来试一试")
    ∷ (Code.request_param_error, bytes "参数错误")
    ∷ (Code.token_expire_error, bytes "token失效，请重新登陆")
    ∷ (Code.token_generate_error, bytes "生成token失败")
    ∷ (Code.db_error, bytes "数据库繁忙,请稍后再试")
    ∷ (Code.no_data, bytes "数据不存在")
    ∷ (Code.duplicate, bytes "数据或主键重复,请检查输入数据")
    ∷ (Code.server_rpc_error, bytes "服务器开小差啦,稍后再来试一试")
    ∷ (Code.primary_error, bytes "不支持无主键或联合主键")
    ∷ (Code.err_generate_token_error, bytes "生成token失败")
    ∷ (Code.err_username_pwd_error, bytes "账号或密码不正确")
    ∷ (Code.err_auth, bytes "无访问权限")
    ∷ (Code.err_req, bytes "数据请求错误")
    ∷ (Code.err_timeout, bytes "服务器响应超时")
    ∷ (Code.file_or_directory_not_exist, bytes "文件或目录不存在")
    ∷ []

message_in : List (ℕ × Bytes) → ℕ → Bytes
message_in [] errcode = busy_message
message_in ((c, msg) ∷ m) errcode = if c == errcode then msg else message_in m errcode

code_in : List (ℕ × Bytes) → ℕ → Bool
code_in [] errcode = false
code_in ((c, msg) ∷ m) errcode = if c == errcode then true else code_in m errcode

unfoldable pub map_err_msg : ℕ → Bytes
unfolding message message_in
map_err_msg errcode = message_in message errcode

unfoldable pub is_code_err : ℕ → Bool
unfolding message code_in
is_code_err errcode = code_in message errcode

pub record CodeError : Type 0 where
  pub err_code : ℕ
  pub err_msg : Bytes

pub new_err_code_msg : ℕ → Bytes → CodeError
new_err_code_msg err_code err_msg = record { err_code = err_code; err_msg = err_msg }

pub new_err_code : ℕ → CodeError
new_err_code err_code = record { err_code = err_code; err_msg = map_err_msg err_code }

pub new_default_error : Bytes → CodeError
new_default_error err_msg = record { err_code = Code.server_common_error; err_msg = err_msg }
