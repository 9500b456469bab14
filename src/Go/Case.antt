-- ===== src/Go/Case.antt =====
-- `strings.ToLower` and `strings.ToUpper` on ASCII text, byte by byte.
use sub_sdk.Base.{ℕ, ◌+◌, ◌-◌, map, if◌then◌else◌}
use sub_sdk.Go.Text.{Bytes, is_upper, is_lower}

unfoldable pub lower : ℕ → ℕ
unfolding is_upper
lower c = if is_upper c then c + 32 else c

unfoldable pub upper : ℕ → ℕ
unfolding is_lower
upper c = if is_lower c then c - 32 else c

-- strings.ToLower(s), for a text of ASCII.
unfoldable pub to_lower : Bytes → Bytes
unfolding lower
to_lower = map lower

-- strings.ToUpper(s), for a text of ASCII.
unfoldable pub to_upper : Bytes → Bytes
unfolding upper
to_upper = map upper
