-- ===== src/Base/Outcomes.antt =====
-- How a call can end: with a value, by an exception, by `std::terminate` or `abort` (an exception
-- that leaves a `noexcept` function, a failed assertion), or with no meaning in C++.
use mathlib.Core.Path.{◌≡◌, refl}
use mathlib.Core.Bool.{Bool, true, false}

-- The exceptions that handlers tell apart: `http_invalid_request` is caught before its bases.
pub data Exception : Type 0 where
  http_invalid_request : Exception
  invalid_argument logic_error out_of_range : Exception
  zmq_error system_error : Exception
  -- An object that is no `std::exception`.
  foreign_exception : Exception

pub data Outcome {ℓ} (A : Type ℓ) : Type ℓ where
  ok : A → Outcome A
  throw : Exception → Outcome A
  terminate : Outcome A
  undefined : Outcome A

infixl 5 ◌>>=◌ ◌>>◌
abbrev pub ◌>>=◌ {ℓ κ} : {A : Type ℓ} {B : Type κ} → Outcome A → (A → Outcome B) → Outcome B
ok a >>= f = f a
throw e >>= f = throw e
terminate >>= f = terminate
undefined >>= f = undefined

abbrev pub ◌>>◌ {ℓ κ} : {A : Type ℓ} {B : Type κ} → Outcome A → Outcome B → Outcome B
m >> k = m >>= λ _. k

-- The exception specification `noexcept`.
abbrev pub noexcept {ℓ} : {A : Type ℓ} → Outcome A → Outcome A
noexcept (ok a) = ok a
noexcept (throw e) = terminate
noexcept terminate = terminate
noexcept undefined = undefined

-- `assert`, which a build with NDEBUG leaves out.
abbrev pub assert_that : Bool → Bool → Outcome (Unit {0})
assert_that ndebug true = ok tt
assert_that true false = ok tt
assert_that false false = terminate

module _ {ℓ κ μ} {A : Type ℓ} {B : Type κ} {C : Type μ} where
  -- Continuations that agree, one of them in two steps, agree behind every call.
  pub >>=-after :
      (m : Outcome A) (f : A → Outcome C) (g : A → Outcome B) (h : B → Outcome C)
      → ((a : A) → f a ≡ (g a >>= h))
      → (m >>= f) ≡ ((m >>= g) >>= h)
  >>=-after (ok a) f g h e = e a
  >>=-after (throw x) f g h e = refl
  >>=-after terminate f g h e = refl
  >>=-after undefined f g h e = refl

-- Continuations that agree everywhere agree behind every call.
pub >>=-pointwise {ℓ κ} :
    {A : Type ℓ} {B : Type κ} (m : Outcome A) (f g : A → Outcome B)
    → ((a : A) → f a ≡ g a)
    → (m >>= f) ≡ (m >>= g)
>>=-pointwise (ok a) f g e = e a
>>=-pointwise (throw x) f g e = refl
>>=-pointwise terminate f g e = refl
>>=-pointwise undefined f g e = refl

-- A call that reads and writes state. What was written before an exception stays written.
abbrev pub Exec {ℓ κ} : Type ℓ → Type κ → Type (ℓ ⊔ κ)
Exec S A = S → Outcome A × S

abbrev pub then_exec {ℓ κ μ} :
    {S : Type ℓ} {A : Type κ} {B : Type μ} → (A → Exec S B) → Outcome A × S → Outcome B × S
then_exec f (ok a, s) = f a s
then_exec f (throw e, s) = (throw e, s)
then_exec f (terminate, s) = (terminate, s)
then_exec f (undefined, s) = (undefined, s)

-- What holds of the state after a call, and is kept by what follows it, holds after both.
pub then_exec-keeps {ℓ κ μ ν} :
    {S : Type ℓ} {A : Type κ} {B : Type μ} (P : S → Type ν) (f : A → Exec S B) (r : Outcome A × S)
    → P r.1
    → ((a : A) (s : S) → P s → P (f a s).1)
    → P (then_exec f r).1
then_exec-keeps P f (ok a, s) h keep = keep a s h
then_exec-keeps P f (throw e, s) h keep = h
then_exec-keeps P f (terminate, s) h keep = h
then_exec-keeps P f (undefined, s) h keep = h
