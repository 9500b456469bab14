-- ===== src/Captchax/Examples.antt =====
-- A cache in memory: the values that were set, the last first, and the keys that were deleted as none.
use sub_sdk.Base.{
  ◌≡◌, ◌≢◌, ◌↔◌, refl, sym, ap, ◌∙◌, Bool, true, false, Option, none, some, [], eqb, eqb_refl,
  eqb_iff, if◌then◌else◌, arith,
}
use sub_sdk.Go.Text.{Bytes, bytes}
use sub_sdk.Captchax.{Cache, set_captcha, verify}
use sub_sdk.Captchax.Verify.{IsCache, verify_once, verify_missing}

abbrev Store : Type 0
Store = Bytes → Option Bytes

abbrev put : Bytes → Option Bytes → Store → Store
put id v s k = if eqb id k then v else s k

abbrev memory : Cache Store
memory = record {
  get = λ id s. s id;
  del = λ id s. (put id none s, true);
  set = λ id value s. (put id (some value) s, true);
}

memory-IsCache : IsCache memory
memory-IsCache = record {
  got_back = λ id value s s' e. got_put id value s s' e;
  deleted = λ id s s' e. got_none id s s' e;
  apart = λ id other_id s n. other_key id other_id n (s other_id);
}
  where
    got_put :
        (id value : Bytes) (s s' : Store)
        → ◌≡◌ {A = Store × Bool} (put id (some value) s, true) (s', true)
        → s' id ≡ some value
    got_put id value s s' e = sym (ap (λ r. r.0 id) e) ∙ rw (eqb_refl id)

    got_none :
        (id : Bytes) (s s' : Store)
        → ◌≡◌ {A = Store × Bool} (put id none s, true) (s', true)
        → s' id ≡ none
    got_none id s s' e = sym (ap (λ r. r.0 id) e) ∙ rw (eqb_refl id)

    other_key : (i j : Bytes) → i ≢ j → (o : Option Bytes) → (if eqb i j then none else o) ≡ o
    other_key i j n o = ground (arith, eqb_iff i j)

abbrev empty : Store
empty k = none

verify_once_example :
    ((verify memory (bytes "a") (bytes "7") true (put (bytes "a") (some (bytes "7")) empty)).1
      ≡ eqb (bytes "7") (bytes "7"))
    × ((verify memory
          (bytes "a")
          (bytes "7")
          false
          (verify memory
            (bytes "a")
            (bytes "7")
            true
            (put (bytes "a") (some (bytes "7")) empty)).0).1
        ≡ false)
    × (memory.get
          (bytes "b")
          (verify memory (bytes "a") (bytes "7") true (put (bytes "a") (some (bytes "7")) empty)).0
        ≡ memory.get (bytes "b") (put (bytes "a") (some (bytes "7")) empty))
verify_once_example =
    verify_once memory memory-IsCache (bytes "a") (bytes "7") (bytes "7") (bytes "7") (bytes "b")
      empty (put (bytes "a") (some (bytes "7")) empty)
      (put (bytes "a") none (put (bytes "a") (some (bytes "7")) empty)) (unfold set_captcha in refl)
      refl (λ e. cc) (λ e. ground arith)

verify_missing_example : ((verify memory (bytes "a") [] true empty).1 ≡ true) ↔ (bytes "" ≡ [])
verify_missing_example = verify_missing memory memory-IsCache (bytes "a") [] true empty refl
