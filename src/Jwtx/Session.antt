-- ===== src/Jwtx/Session.antt =====
-- The life of a token: when it is accepted, when it is replaced, and when it is refused.
use sub_sdk.Base.{
  ℕ, ◌+◌, ◌/◌, ◌≤◌, ◌<◌, ◌^◌, ◌≡◌, refl, ap, ◌∙◌, ℤ, pos, add64_pos, ltz, lez, Bool, true, false,
  none, some, [], done, ltb, lt→ltb, if◌then◌else◌, arith, Bool-cases, inl, inr,
}
use sub_sdk.Go.Text.{Bytes}
use sub_sdk.Jwtx.{
  Claims, validation, token, Library, claims, strip_bearer_prefix, check_parsed, issued_claims,
  refreshed_claims, check_claims, parse_token, check_token, signed,
}

-- What the documentation of golang-jwt says of a signed text under its own key: its claims are read back, as
-- valid from the issue time until before the expiry, and with the error of expiry from then on.
pub record Reads (lib : Library) : Type 0 where
  pub fresh :
      (now : ℤ) (c : Claims) (key text : Bytes)
      → lib.sign c key ≡ some text
      → lez c.issued_at now ≡ true
      → ltz now c.expires_at ≡ true
      → lib.parse now text key ≡ token c true none
  pub stale :
      (now : ℤ) (c : Claims) (key text : Bytes)
      → lib.sign c key ≡ some text
      → lez c.issued_at now ≡ true
      → ltz now c.expires_at ≡ false
      → lib.parse now text key ≡ token c false (some (validation true))

-- Claims that were issued at `i` for `s` seconds.
pub record IsLife (c : Claims) (i s : ℕ) : Type 0 where
  pub in_range : i + s < 2 ^ 63
  pub issued : c.issued_at ≡ pos i
  pub lasts : c.expire ≡ pos s
  pub refreshes : c.refresh_at ≡ pos (i + s / 2)
  pub expires : c.expires_at ≡ pos (i + s)

pub issued_claims-IsLife :
    (username nick_name issuer uid role_id dept_id : Bytes) (i s : ℕ)
    → i + s < 2 ^ 63
    → IsLife (issued_claims username nick_name issuer (pos i) (pos s) uid role_id dept_id) i s
unfolding issued_claims
issued_claims-IsLife username nick_name issuer uid role_id dept_id i s h = record {
  in_range = h;
  issued = refl;
  lasts = refl;
  refreshes = add64_pos i (s / 2) (omega arith);
  expires = add64_pos i s h;
}

pub refreshed_claims-IsLife :
    (c : Claims) (i s n : ℕ)
    → IsLife c i s
    → n + s < 2 ^ 63
    → IsLife (refreshed_claims (pos n) (pos n) c) n s
unfolding refreshed_claims
refreshed_claims-IsLife c i s n l h = record {
  in_range = h;
  issued = refl;
  lasts = l.lasts;
  refreshes = rw l.lasts (add64_pos n (s / 2) (omega arith));
  expires = rw l.lasts (add64_pos n s h);
}

-- The answer to a token that was issued at `i` for `s` seconds and is checked at `n`: up to the middle of
-- its life it is good, after the middle it is good and replaced, and from its end on it is refused.
abbrev pub answer : Library → Bytes → Claims → ℕ → ℕ → ℕ → Bool × Bytes
answer lib key c i s n =
    if ltb n (i + s)
    then (if ltb (i + s / 2) n
        then (true, signed (lib.sign (refreshed_claims (pos n) (pos n) c) key))
        else (true, []))
    else (false, [])

module _ (lib : Library) (reads : Reads lib) (key : Bytes) where
  accept :
      (c : Claims) (now later : ℤ) (text : Bytes)
      → lib.sign c key ≡ some text
      → strip_bearer_prefix text ≡ text
      → lez c.issued_at now ≡ true
      → ltz now c.expires_at ≡ true
      → check_token lib now now later text key ≡ done (check_claims lib now later key (claims c))
  unfolding check_token parse_token check_parsed
  accept c now later text s st i e = rw (st, reads.fresh now c key text s i e)

  refuse :
      (c : Claims) (now later : ℤ) (text : Bytes)
      → lib.sign c key ≡ some text
      → strip_bearer_prefix text ≡ text
      → lez c.issued_at now ≡ true
      → ltz now c.expires_at ≡ false
      → check_token lib now now later text key ≡ done (false, [])
  unfolding check_token parse_token check_parsed check_claims
  refuse c now later text s st i e = rw (st, reads.stale now c key text s i e)

  -- CheckToken gives that answer at each time from the issue on.
  pub check_token_life :
      (c : Claims) (text : Bytes) (i s n : ℕ)
      → IsLife c i s
      → i ≤ n
      → lib.sign c key ≡ some text
      → strip_bearer_prefix text ≡ text
      → check_token lib (pos n) (pos n) (pos n) text key ≡ done (answer lib key c i s n)
  check_token_life c text i s n l after sg st = elim (Bool-cases (ltb n (i + s))) [
    | inl e ↦
        accept c (pos n) (pos n) text sg st (rw l.issued (ground arith)) (rw l.expires e)
        ∙ ap done (rw e (judged e))
    | inr e ↦
        refuse c (pos n) (pos n) text sg st (rw l.issued (ground arith)) (rw l.expires e) ∙ rw e
  ]
    where
      judged :
          ltb n (i + s) ≡ true
          → check_claims lib (pos n) (pos n) key (claims c) ≡ (
              if ltb (i + s / 2) n
              then (true, signed (lib.sign (refreshed_claims (pos n) (pos n) c) key))
              else (true, []))
      judged e = unfold check_claims in rw l.refreshes

  -- A token checked in the second half of its life, at `n`, is replaced by one with a life of the same
  -- length from `n` on: the new token gets the answer of that life at each later time.
  pub check_token_renewal :
      (c : Claims) (text text' : Bytes) (i s n m : ℕ)
      → IsLife c i s
      → i + s / 2 < n
      → n < i + s
      → n + s < 2 ^ 63
      → n ≤ m
      → lib.sign c key ≡ some text
      → strip_bearer_prefix text ≡ text
      → lib.sign (refreshed_claims (pos n) (pos n) c) key ≡ some text'
      → strip_bearer_prefix text' ≡ text'
      → (check_token lib (pos n) (pos n) (pos n) text key ≡ done (true, text'))
        × (check_token lib (pos m) (pos m) (pos m) text' key
            ≡ done (answer lib key (refreshed_claims (pos n) (pos n) c) n s m))
  unfolding signed
  check_token_renewal c text text' i s n m l mid end range le sg st sg' st' = (
    check_token_life c text i s n l (omega arith) sg st
        ∙ ap done (rw (lt→ltb n (i + s) end, lt→ltb (i + s / 2) n mid, sg')),
    check_token_life (refreshed_claims (pos n) (pos n) c) text' n s m
        (refreshed_claims-IsLife c i s n l range) le sg' st',
  )
