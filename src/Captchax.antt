-- ===== src/Captchax.antt =====
-- captchax/store.go: captchas in a cache. The cache is a parameter, with what go-zero documents of it.
pub mod Verify
mod Examples
use sub_sdk.Base.{Bool, true, false, Option, none, some, [], eqb, if◌then◌else◌}
use sub_sdk.Go.Text.{Bytes}

-- What the store uses of cache.Cache, for texts: a state, and its operations. `get` gives none for an error.
pub record Cache {ℓ} (S : Type ℓ) : Type ℓ where
  pub get : Bytes → S → Option Bytes
  -- Del; false is an error
  pub del : Bytes → S → S × Bool
  -- SetWithExpire; false is an error
  pub set : Bytes → Bytes → S → S × Bool

module _ {ℓ} {S : Type ℓ} (cache : Cache S) where
  pub set_captcha : Bytes → Bytes → S → S × Bool
  set_captcha id value s = cache.set id value s

  -- The error of Del is not looked at.
  got : Bytes → Bool → S → Option Bytes → S × Bytes
  got id clear s none = (s, [])
  got id clear s (some v) = (if clear then (cache.del id s).0 else s, v)

  pub get_captcha : Bytes → Bool → S → S × Bytes
  unfolding got
  get_captcha id clear s = got id clear s (cache.get id s)

  pub verify : Bytes → Bytes → Bool → S → S × Bool
  verify id answer clear s = let r = get_captcha id clear s in (r.0, eqb r.1 answer)
