-- ===== src/Captchax/Verify.antt =====
-- When a captcha is accepted.
use sub_sdk.Base.{
  ◌≡◌, ◌≢◌, ◌↔◌, sym, Bool, true, false, none, some, [], eqb, eqb_refl, eqb_eq, eqb_iff, arith,
}
use sub_sdk.Go.Text.{Bytes}
use sub_sdk.Captchax.{Cache, set_captcha, got, get_captcha, verify}

-- What go-zero documents of a cache: after a call with no error a value that was set is got, and a deleted
-- key has none; deleting leaves the other keys as they are.
pub record IsCache {ℓ} {S : Type ℓ} (cache : Cache S) : Type ℓ where
  pub got_back :
      (id value : Bytes) (s s' : S)
      → cache.set id value s ≡ (s', true)
      → cache.get id s' ≡ some value
  pub deleted : (id : Bytes) (s s' : S) → cache.del id s ≡ (s', true) → cache.get id s' ≡ none
  pub apart :
      (id other_id : Bytes) (s : S)
      → id ≢ other_id
      → cache.get other_id (cache.del id s).0 ≡ cache.get other_id s

module _ {ℓ} {S : Type ℓ} (cache : Cache S) (laws : IsCache cache) where
  stored_answer :
      (k v a : Bytes) (t : S)
      → cache.get k t ≡ some v
      → eqb (get_captcha cache k true t).1 a ≡ eqb v a
  unfolding get_captcha
  stored_answer k v a t h = rw (h, got)

  cleared_state :
      (k v : Bytes) (t : S)
      → cache.get k t ≡ some v
      → (get_captcha cache k true t).0 ≡ (cache.del k t).0
  unfolding get_captcha
  cleared_state k v t h = rw (h, got)

  missing :
      (k : Bytes) (b : Bool) (t : S) → cache.get k t ≡ none → get_captcha cache k b t ≡ (t, [])
  unfolding get_captcha
  missing k b t h = rw (h, got)

  -- A captcha that was stored without an error is verified by its value and by no other answer; if it is
  -- cleared by that and the deletion, whose error is dropped, has none, a later answer that is not empty is
  -- refused, and the captcha of another key is as it was.
  pub verify_once :
      (id value first second id' : Bytes) (s s' s'' : S)
      → set_captcha cache id value s ≡ (s', true)
      → cache.del id s' ≡ (s'', true)
      → second ≢ []
      → id ≢ id'
      → ((verify cache id first true s').1 ≡ eqb value first)
        × ((verify cache id second false (verify cache id first true s').0).1 ≡ false)
        × (cache.get id' (verify cache id first true s').0 ≡ cache.get id' s')
  unfolding verify set_captcha
  verify_once id value first second id' s s' s'' e d n a =
      let h = laws.got_back id value s s' e in
      (
        stored_answer id value first s' h,
        rw (cleared_state id value s' h, missing id false (cache.del id s').0 (gone id s' s'' d))
            (refused second n),
        rw (cleared_state id value s' h) (laws.apart id id' s' a),
      )
    where
      gone :
          (k : Bytes) (t t' : S) → cache.del k t ≡ (t', true) → cache.get k (cache.del k t).0 ≡ none
      gone k t t' h = rw h (laws.deleted k t t' h)

      refused : (t : Bytes) → t ≢ [] → eqb [] t ≡ false
      refused t m = ground (arith, eqb_iff [] t)

  -- With no captcha under a key, the empty answer is accepted and every other answer is refused.
  pub verify_missing :
      (id answer : Bytes) (clear : Bool) (s : S)
      → cache.get id s ≡ none
      → ((verify cache id answer clear s).1 ≡ true) ↔ (answer ≡ [])
  unfolding verify
  verify_missing id answer clear s h =
      rw (missing id clear s h) (λ e. sym (eqb_eq [] answer e), λ e. rw e (eqb_refl []))
