-- ===== src/Common/Task/Moves.antt =====
-- How a task may change the state: a reflexive and transitive relation that each of its parts keeps.
use thunder_sandbox.Prelude.{Bool, true, false, if◌then◌else◌}
use thunder_sandbox.Common.Errors.{Error, Result, ok, err}
use thunder_sandbox.Common.Task.{
  Ran, done, threw, waiting, Task, pure, throw, wait_on, lift, resume, ◌>>=◌,
}

pub record IsPreorder {ℓ} {S : Type ℓ} (R : S → S → Type ℓ) : Type ℓ where
  pub same : (s : S) → R s s
  pub chain : (s t u : S) → R s t → R t u → R s u

-- `m` leaves a state that is related to the one it began with, however it ends
pub record Moves {ℓ} {S A : Type ℓ} (R : S → S → Type ℓ) (m : Task S A) : Type ℓ where
  pub at : (s : S) → R s (m s).1

module _ {ℓ} {S : Type ℓ} {R : S → S → Type ℓ} (order : IsPreorder R) where
  module _ {A : Type ℓ} where
    pub Moves-pure : (a : A) → Moves R (pure a)
    Moves-pure a = record { at = order.same }

    pub Moves-throw : (e : Error) → Moves R (throw {A = A} e)
    Moves-throw e = record { at = order.same }

    pub Moves-wait_on : Moves R (wait_on {A = A})
    Moves-wait_on = record { at = order.same }

    pub Moves-lift : (r : Result A) → Moves R (lift r)
    Moves-lift (ok a) = record { at = order.same }
    Moves-lift (err e) = record { at = order.same }

    pub Moves-if :
        (b : Bool) (m n : Task S A) → Moves R m → Moves R n → Moves R (if b then m else n)
    Moves-if true m n h k = h
    Moves-if false m n h k = k

  module _ {A B : Type ℓ} where
    pub resumed :
        (s : S) (r : Ran A × S) (k : A → Task S B)
        → R s r.1
        → ((a : A) → Moves R (k a))
        → R s (resume r k).1
    resumed s (done a, t) k h g = order.chain s t (k a t).1 h ((g a).at t)
    resumed s (threw e, t) k h g = h
    resumed s (waiting, t) k h g = h

    pub Moves-bind :
        (m : Task S A) (k : A → Task S B)
        → Moves R m
        → ((a : A) → Moves R (k a))
        → Moves R (m >>= k)
    unfolding ◌>>=◌
    Moves-bind m k h g = record { at = λ s. resumed s (m s) k (h.at s) g }
