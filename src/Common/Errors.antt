-- ===== src/Common/Errors.antt =====
-- thunder_sandbox/_common/exceptions.py, and the exceptions of Python's that the client raises or
-- handles. Messages are not modelled: the source says that they are not a stable contract.
use thunder_sandbox.Prelude.{
  ℕ, ◌≡◌, refl, ap, subst, ◌⊎◌, inl, inr, Bool, true, false, Option, none, Text, arith,
}

-- one constructor for each class; `_WaitWindowElapsedError` is `wait_window_elapsed`
pub data ErrorKind : Type 0 where
  thunder authentication connection retryable capacity rate_limit : ErrorKind
  service_unavailable invalid_request not_found conflict unsupported_feature : ErrorKind
  sandbox sandbox_failed sandbox_timeout wait_window_elapsed : ErrorKind

-- `retry_after` counts milliseconds
pub record ThunderError : Type 0 where
  pub kind : ErrorKind
  pub code : Option Text
  pub status : Option ℕ
  pub retry_after : Option ℕ

abbrev pub plain : ErrorKind → ThunderError
plain k = record { kind = k; code = none; status = none; retry_after = none }

-- `isinstance(exc, RetryableError)`
abbrev pub is_retryable : ErrorKind → Bool
is_retryable ErrorKind.retryable = true
is_retryable ErrorKind.capacity = true
is_retryable ErrorKind.rate_limit = true
is_retryable ErrorKind.service_unavailable = true
is_retryable _ = false

-- what a call may raise
pub data Error : Type 0 where
  thunder_error : ThunderError → Error
  value_error type_error key_error assertion_error : Error
  unsupported_operation os_error regex_error : Error

pub data Result {ℓ} (A : Type ℓ) : Type ℓ where
  ok : A → Result A
  err : Error → Result A

abbrev pub raise {ℓ} : {A : Type ℓ} → ErrorKind → Result A
raise k = err (thunder_error (plain k))

infixl 5 ◌>>=◌ ◌>>◌
unfoldable pub ◌>>=◌ {ℓ κ} : {A : Type ℓ} {B : Type κ} → Result A → (A → Result B) → Result B
ok a >>= f = f a
err e >>= f = err e

abbrev pub ◌>>◌ {ℓ κ} : {A : Type ℓ} {B : Type κ} → Result A → Result B → Result B
m >> k = m >>= λ _. k

-- `if not test: raise e`
abbrev pub guard : Bool → Error → Result (Unit {0})
guard true e = ok tt
guard false e = err e

abbrev success {ℓ} : {A : Type ℓ} → A → Result A → A
success a (ok b) = b
success a (err e) = a

pub ok-injective {ℓ} : {A : Type ℓ} {a b : A} → ok a ≡ ok b → a ≡ b
ok-injective {a} e = ap (success a) e

pub ok≢err {ℓ} : {A : Type ℓ} {a : A} {e : Error} → ¬ (err e ≡ ok a)
ok≢err h = cc

pub Result-cases {ℓ} :
    {A : Type ℓ} (r : Result A) → ((a : A) × (r ≡ ok a)) ⊎ ((e : Error) × (r ≡ err e))
Result-cases (ok a) = inl (a, refl)
Result-cases (err e) = inr (e, refl)

-- what a call returns, if it returns, satisfies `P`
pub record Yields {ℓ κ} {A : Type ℓ} (P : A → Type κ) (r : Result A) : Type (ℓ ⊔ κ) where
  pub at : (a : A) → r ≡ ok a → P a

module _ {ℓ κ} {A : Type ℓ} {P : A → Type κ} where
  pub Yields-ok : (a : A) → P a → Yields P (ok a)
  Yields-ok a h = record { at = λ b e. subst P (ok-injective e) h }

  pub Yields-err : (e : Error) → Yields P (err e)
  Yields-err e = record { at = λ b h. absurd (ok≢err h) }

module _ {ℓ κ μ} {A : Type ℓ} {B : Type κ} {P : B → Type μ} where
  pub Yields-bind :
      (m : Result A) (f : A → Result B) → ((a : A) → m ≡ ok a → Yields P (f a)) → Yields P (m >>= f)
  unfolding ◌>>=◌
  Yields-bind (ok a) f h = h a refl
  Yields-bind (err e) f h = Yields-err e

pub guard-eq-ok : (b : Bool) (e : Error) {u : Unit {0}} → guard b e ≡ ok u → b ≡ true
guard-eq-ok true e h = refl
guard-eq-ok false e h = ground arith
