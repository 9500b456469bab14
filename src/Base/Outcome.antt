-- ===== src/Base/Outcome.antt =====
-- A run of Go code that may panic. A panic ends the run, and its value says why.
use mathlib.Core.Path.{◌≡◌, refl, subst}

-- What a run may end in: the failed type assertion, the nil interface, the index out of range, the
-- reflection on a value that is no struct, and the channel that is closed.
pub data Panic : Type 0 where
  bad_assertion nil_interface out_of_range not_struct not_exported closed_channel : Panic

pub data Run {ℓ} (A : Type ℓ) : Type ℓ where
  done : A → Run A
  panic : Panic → Run A

infixl 5 ◌>>=◌ ◌>>◌
abbrev pub ◌>>=◌ {ℓ κ} : {A : Type ℓ} {B : Type κ} → Run A → (A → Run B) → Run B
done a >>= f = f a
panic p >>= f = panic p

abbrev pub ◌>>◌ {ℓ κ} : {A : Type ℓ} {B : Type κ} → Run A → Run B → Run B
m >> k = m >>= λ _. k

-- What holds of the value of a run, if it returns.
abbrev pub Holds {ℓ} : {A : Type ℓ} → Run A → (A → Type 0) → Type 0
Holds (done a) P = P a
Holds (panic p) P = Unit

pub Holds-bind {ℓ κ} :
    {A : Type ℓ} {B : Type κ} (P : A → Type 0) (Q : B → Type 0) (m : Run A) (f : A → Run B)
    → Holds m P
    → ((a : A) → P a → Holds (f a) Q)
    → Holds (m >>= f) Q
Holds-bind P Q (done a) f h k = k a h
Holds-bind P Q (panic p) f h k = tt

pub Holds_of_done {ℓ} :
    {A : Type ℓ} (P : A → Type 0) (m : Run A) (a : A) → m ≡ done a → Holds m P → P a
Holds_of_done P m a e h = subst (λ r. Holds r P) e h

pub >>=-eq-done {ℓ κ} :
    {A : Type ℓ} {B : Type κ} (m : Run A) (f : A → Run B) {b : B}
    → (m >>= f) ≡ done b
    → (a : A) × (m ≡ done a) × (f a ≡ done b)
>>=-eq-done (done a) f h = (a, refl, h)
>>=-eq-done (panic p) f h = cc
