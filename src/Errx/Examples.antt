-- ===== src/Errx/Examples.antt =====
-- Errors made from a code or from a message.
use sub_sdk.Base.{◌≡◌, refl}
use sub_sdk.Go.Text.{bytes}
use sub_sdk.Errx.Code
use sub_sdk.Errx.{map_err_msg, new_err_code, new_err_code_msg, new_default_error}

made :
    ((new_err_code Code.no_data).err_msg ≡ bytes "数据不存在")
    × ((new_err_code_msg Code.err_req (bytes "x")).err_msg ≡ bytes "x")
    × ((new_default_error (bytes "x")).err_code ≡ Code.server_common_error)
unfolding new_err_code new_err_code_msg new_default_error map_err_msg
made = (refl, refl, refl)
