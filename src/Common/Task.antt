-- ===== src/Common/Task.antt =====
-- A coroutine over a state that other tasks see. It returns, raises, or is still waiting when the
-- answers that were given for it are used up; in each case the state is as it left it.
pub mod Moves
use thunder_sandbox.Prelude.{◌≡◌, refl, Bool, true, false}
use thunder_sandbox.Common.Errors.{Error, ErrorKind, thunder_error, plain, Result, ok, err}

pub data Ran {ℓ} (A : Type ℓ) : Type ℓ where
  done : A → Ran A
  threw : Error → Ran A
  waiting : Ran A

abbrev pub Task {ℓ} : Type ℓ → Type ℓ → Type ℓ
Task S A = S → Ran A × S

module _ {ℓ} {S A : Type ℓ} where
  abbrev pub pure : A → Task S A
  pure a s = (done a, s)

  abbrev pub throw : Error → Task S A
  throw e s = (threw e, s)

  abbrev pub wait_on : Task S A
  wait_on s = (waiting, s)

  -- the answer of a call that leaves the state alone
  abbrev pub lift : Result A → Task S A
  lift (ok a) s = (done a, s)
  lift (err e) s = (threw e, s)

module _ {ℓ} {S A B : Type ℓ} where
  abbrev pub resume : Ran A × S → (A → Task S B) → Ran B × S
  resume (done a, s) k = k a s
  resume (threw e, s) k = (threw e, s)
  resume (waiting, s) k = (waiting, s)

  infixl 5 ◌>>=◌ ◌>>◌
  unfoldable pub ◌>>=◌ : Task S A → (A → Task S B) → Task S B
  ◌>>=◌ m k s = resume (m s) k

  abbrev pub ◌>>◌ : Task S A → Task S B → Task S B
  m >> k = m >>= λ _. k

abbrev pub throw_kind {ℓ} : {S A : Type ℓ} → ErrorKind → Task S A
throw_kind k = throw (thunder_error (plain k))
