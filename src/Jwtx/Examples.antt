-- ===== src/Jwtx/Examples.antt =====
-- A signing library that writes the key and the claims into the token, and a token of an hour.
use mathlib.Core.Option.{some-injective}
use sub_sdk.Base.{
  ℕ, zero, suc, ◌≡◌, refl, sym, ap, ◌∙◌, ℤ, pos, negsuc, ltz, lez, true, false, none, some, List,
  [], ◌∷◌, ◌++◌, done, eqb, eqb_refl, if◌then◌else◌, take, drop, length, take_prefix, drop_prefix,
  arith,
}
use sub_sdk.Go.Text.{Bytes, bytes, is_lower}
use sub_sdk.Go.Case.{upper, to_upper}
use sub_sdk.Jwtx.{
  get_token_claims, get_user_id_from_token, get_role_id_from_token, get_dept_id_from_token,
  parse_token, check_parsed,
}
use sub_sdk.Jwtx.{
  Claims, validation, other_error, Parsed, no_token, token, Library, strip_bearer_prefix,
  issued_claims, refreshed_claims, check_token,
}
use sub_sdk.Jwtx.Session.{
  Reads, IsLife, issued_claims-IsLife, answer, check_token_life, check_token_renewal,
}

put : List Bytes → Bytes
put [] = []
put (f ∷ fs) = length f ∷ (f ++ put fs)

get : ℕ → Bytes → List Bytes
get zero s = []
get (suc n) [] = []
get (suc n) (k ∷ s) = take k s ∷ get n (drop k s)

get-put : (fs : List Bytes) → get (length fs) (put fs) ≡ fs
unfolding put get
get-put [] = refl
get-put (f ∷ fs) =
    rw (take_prefix f (put fs) (length f) refl, drop_prefix f (put fs) (length f) refl)
      (ap (λ l. f ∷ l) (get-put fs))

put_int : ℤ → Bytes
put_int (pos n) = 0 ∷ n ∷ []
put_int (negsuc n) = 1 ∷ n ∷ []

get_int : Bytes → ℤ
get_int (zero ∷ n ∷ []) = pos n
get_int (suc k ∷ n ∷ []) = negsuc n
get_int s = pos 0

get_int-put_int : (z : ℤ) → get_int (put_int z) ≡ z
unfolding get_int put_int
get_int-put_int (pos n) = refl
get_int-put_int (negsuc n) = refl

fields : Claims → List Bytes
fields c =
    c.user_id
    ∷ c.role_id
    ∷ c.dept_id
    ∷ c.user_name
    ∷ c.nick_name
    ∷ c.client_id
    ∷ c.scope
    ∷ put_int c.refresh_at
    ∷ put_int c.expire
    ∷ c.token_str
    ∷ c.issuer
    ∷ put_int c.issued_at
    ∷ put_int c.expires_at
    ∷ []

judge : ℤ → Claims → Parsed
judge now c =
    if lez c.issued_at now
    then (if ltz now c.expires_at
        then token c true none
        else token c false (some (validation true)))
    else token c false (some (validation false))

read : ℤ → Bytes → List Bytes → Parsed
unfolding judge get_int
read now key (k ∷ a ∷ b ∷ c ∷ d ∷ e ∷ f ∷ g ∷ r ∷ x ∷ t ∷ i ∷ n ∷ m ∷ []) =
    if eqb k key
    then judge now (record {
      user_id = a;
      role_id = b;
      dept_id = c;
      user_name = d;
      nick_name = e;
      client_id = f;
      scope = g;
      refresh_at = get_int r;
      expire = get_int x;
      token_str = t;
      issuer = i;
      issued_at = get_int n;
      expires_at = get_int m;
    })
    else token
        (record {
          user_id = a;
          role_id = b;
          dept_id = c;
          user_name = d;
          nick_name = e;
          client_id = f;
          scope = g;
          refresh_at = pos 0;
          expire = pos 0;
          token_str = t;
          issuer = i;
          issued_at = pos 0;
          expires_at = pos 0;
        })
        false (some other_error)
read now key fs = no_token (validation false)

abbrev plain : Library
plain = record {
  sign = λ c key. some (put (key ∷ fields c));
  parse = λ now s key. read now key (get 14 s);
}

read-fields : (now : ℤ) (c : Claims) (key : Bytes) → read now key (key ∷ fields c) ≡ judge now c
unfolding read fields
read-fields now c key = rw (
  eqb_refl key,
  get_int-put_int c.refresh_at,
  get_int-put_int c.expire,
  get_int-put_int c.issued_at,
  get_int-put_int c.expires_at,
)

plain_reads :
    (now : ℤ) (c : Claims) (key text : Bytes)
    → plain.sign c key ≡ some text
    → plain.parse now text key ≡ judge now c
plain_reads now c key text e =
    ap (λ s. read now key (get 14 s)) (sym (some-injective _ _ e))
    ∙ (ap (read now key) (taken c key) ∙ read-fields now c key)
  where
    taken : (d : Claims) (k : Bytes) → get 14 (put (k ∷ fields d)) ≡ k ∷ fields d
    taken d k = unfold fields in get-put (k ∷ fields d)

plain-Reads : Reads plain
plain-Reads = record {
  fresh = λ now c key text s i e. plain_reads now c key text s ∙ (unfold judge in rw (i, e));
  stale = λ now c key text s i e. plain_reads now c key text s ∙ (unfold judge in rw (i, e));
}

abbrev key : Bytes
key = bytes "secret"

abbrev ann : Claims
ann =
    issued_claims (bytes "ann") (bytes "Ann") (bytes "sub") (pos 1000) (pos 3600) (bytes "7")
      (bytes "1") (bytes "2")

abbrev ann_token : Bytes
ann_token = put (key ∷ fields ann)

ann-IsLife : IsLife ann 1000 3600
ann-IsLife =
    issued_claims-IsLife (bytes "ann") (bytes "Ann") (bytes "sub") (bytes "7") (bytes "1")
      (bytes "2") 1000 3600 (omega arith)

-- The encoding begins with the length of the key, so it has no bearer prefix.
no_prefix : (t : Bytes) → strip_bearer_prefix (6 ∷ t) ≡ 6 ∷ t
unfolding strip_bearer_prefix to_upper upper eqb is_lower
no_prefix t = ground arith

-- Checked after ten minutes.
check_token_life_example :
    check_token plain (pos 1600) (pos 1600) (pos 1600) ann_token key
    ≡ done (answer plain key ann 1000 3600 1600)
check_token_life_example =
    check_token_life plain plain-Reads key ann ann_token 1000 3600 1600 ann-IsLife (omega arith)
      refl (unfold put in no_prefix _)

abbrev renewed : Claims
renewed = refreshed_claims (pos 3000) (pos 3000) ann

-- Checked after two thousand seconds, and the new token after an hour more.
check_token_renewal_example :
    (check_token plain (pos 3000) (pos 3000) (pos 3000) ann_token key
      ≡ done (true, put (key ∷ fields renewed)))
    × (check_token plain (pos 6600) (pos 6600) (pos 6600) (put (key ∷ fields renewed)) key
        ≡ done (answer plain key renewed 3000 3600 6600))
check_token_renewal_example =
    check_token_renewal plain plain-Reads key ann ann_token (put (key ∷ fields renewed)) 1000 3600
      3000 6600 ann-IsLife (omega arith) (omega arith) (omega arith) (omega arith) refl
      (unfold put in no_prefix _) refl (unfold put in no_prefix _)

-- A library that takes every token for that of ann.
abbrev trusting : Library
trusting = record { sign = λ c k. none; parse = λ now s k. token ann true none }

ann_read :
    (get_token_claims plain key
        (bytes "ann")
        (bytes "Ann")
        (bytes "sub")
        (pos 1000)
        (pos 3600)
        (bytes "7")
        (bytes "1")
        (bytes "2")
      ≡ some ann_token)
    × (get_user_id_from_token trusting (pos 0) (bytes "t") key ≡ done (some (bytes "7")))
    × (get_role_id_from_token trusting (pos 0) (bytes "t") key ≡ done (some (bytes "1")))
    × (get_dept_id_from_token trusting (pos 0) (bytes "t") key ≡ done (some (bytes "2")))
unfolding get_token_claims get_user_id_from_token get_role_id_from_token get_dept_id_from_token
    parse_token check_parsed issued_claims
ann_read = (refl, refl, refl, refl)
