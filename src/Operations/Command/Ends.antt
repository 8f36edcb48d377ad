-- ===== src/Operations/Command/Ends.antt =====
-- How a command that may be repeated ends (thunder_sandbox/asynchronous/sandbox.py).
use thunder_sandbox.Prelude.{
  ℕ, ◌≡◌, refl, sym, ap, ◌∙◌, inl, inr, Bool, true, false, Option, none, some, List, [], ◌∷◌, ℤ,
  map, arith, if◌then◌else◌,
}
use thunder_sandbox.Common.Errors.{Error, ErrorKind, thunder_error, plain}
use thunder_sandbox.Ssh.Manager.{SshError, is_transient, Reply, returned, raised}
use thunder_sandbox.Ssh.Retry.{Round, Outcome, success, failure, exhausted, late, running}
use thunder_sandbox.Ssh.Retry.Ends.{Answers, Explained, run-Explained}
use thunder_sandbox.Operations.Command.{
  Ended, returns, passes, raises, pending, ◌>>=◌, Completed, acknowledged, check_reply,
  checked_round, ended, Call, run_checked,
}

-- what holds of the value, of what is passed on, and of the exception, by how an operation ends
abbrev pub Ends {ℓ κ} :
    {A : Type ℓ} → (A → Type κ) → (SshError → Type κ) → (Error → Type κ) → Ended A → Type κ
Ends P Q R (returns a) = P a
Ends P Q R (passes e) = Q e
Ends P Q R (raises e) = R e
Ends P Q R pending = Unit

pub Ends-bind {ℓ κ μ} :
    {A : Type ℓ} {B : Type κ} (P : A → Type μ) (P' : B → Type μ) (Q : SshError → Type μ)
    (R : Error → Type μ) (m : Ended A) (f : A → Ended B)
    → Ends P Q R m
    → ((a : A) → P a → Ends P' Q R (f a))
    → Ends P' Q R (m >>= f)
unfolding ◌>>=◌
Ends-bind P P' Q R (returns a) f h k = k a h
Ends-bind P P' Q R (passes e) f h k = h
Ends-bind P P' Q R (raises e) f h k = h
Ends-bind P P' Q R pending f h k = tt

pub Ends-if {ℓ κ} :
    {A : Type ℓ} (P : A → Type κ) (Q : SshError → Type κ) (R : Error → Type κ) (b : Bool)
    (m n : Ended A)
    → (b ≡ true → Ends P Q R m)
    → (b ≡ false → Ends P Q R n)
    → Ends P Q R (if b then m else n)
Ends-if P Q R true m n h k = h refl
Ends-if P Q R false m n h k = k refl

-- A command was run and came to `r`, with an exit code that asks for no other attempt.
pub record Acknowledged {A : Type 0} (retry : ℤ → Bool) (rs : List (Round (Completed A)))
    (r : Completed A) : Type 0 where
  pub answered : Answers r rs
  pub code : ℤ
  pub exited : r.returncode ≡ some code
  pub final : retry code ≡ false

module _ {A : Type 0} (retry : ℤ → Bool) where
  acknowledged_inv :
      (o : Option ℤ) (c r : Completed A)
      → c.returncode ≡ o
      → acknowledged retry o c ≡ returned r
      → (c ≡ r) × (n : ℤ) × (c.returncode ≡ some n) × (retry n ≡ false)
  acknowledged_inv none c r h e = absurd (cc)
  acknowledged_inv (some n) c r h e = (ground arith, n, h, ground arith)

  check_inv :
      (x : Reply (Completed A)) (r : Completed A)
      → check_reply retry x ≡ returned r
      → (x ≡ returned r) × (n : ℤ) × (r.returncode ≡ some n) × (retry n ≡ false)
  check_inv (returned c) r e =
      let (s, n, k, f) = acknowledged_inv c.returncode c r refl e in
      (ap returned s, n, sym (ap (λ x. x.returncode) s) ∙ k, f)
  check_inv (raised x) r e = absurd (cc)

  answered :
      (rs : List (Round (Completed A))) (r : Completed A)
      → Answers r (map (checked_round retry) rs)
      → Acknowledged retry rs r
  answered [] r h = absurd h
  answered (q ∷ rs) r (inl (c, e)) =
      let (x, n, k, f) = check_inv (q.operation c) r e in
      record { answered = inl (c, x); code = n; exited = k; final = f }
  answered (q ∷ rs) r (inr h) =
      let a = answered rs r h in
      record { answered = inr a.answered; code = a.code; exited = a.exited; final = a.final }

  -- how the manager's retries end, seen from the operation
  outcome-Ends :
      (deadline : Option ℕ) (start : ℕ) (rs : List (Round (Completed A)))
      (o : Outcome (Completed A))
      → Explained deadline start (map (checked_round retry) rs) o
      → Ends
          (Acknowledged retry rs)
          (λ e. is_transient e ≡ false)
          (λ e. e ≡ thunder_error (plain ErrorKind.connection))
          (ended o)
  outcome-Ends deadline start rs (success r m) h = answered rs r h
  outcome-Ends deadline start rs (failure e m) h = h
  outcome-Ends deadline start rs (exhausted t m) h = refl
  outcome-Ends deadline start rs (late t m) h = refl
  outcome-Ends deadline start rs (running l) h = tt

  pub run_checked-Ends :
      (c : Call (Completed A))
      → Ends
          (Acknowledged retry c.rounds)
          (λ e. is_transient e ≡ false)
          (λ e. e ≡ thunder_error (plain ErrorKind.connection))
          (run_checked retry c)
  unfolding run_checked
  run_checked-Ends c =
      outcome-Ends c.deadline c.now c.rounds _
        (run-Explained c.deadline (map (checked_round retry) c.rounds) c.manager c.now)

pub Ends-mono {ℓ κ} :
    {A : Type ℓ} (P P' : A → Type κ) (Q Q' : SshError → Type κ) (R R' : Error → Type κ)
    (m : Ended A)
    → ((a : A) → P a → P' a)
    → ((e : SshError) → Q e → Q' e)
    → ((e : Error) → R e → R' e)
    → Ends P Q R m
    → Ends P' Q' R' m
Ends-mono P P' Q Q' R R' (returns a) f g h k = f a k
Ends-mono P P' Q Q' R R' (passes e) f g h k = g e k
Ends-mono P P' Q Q' R R' (raises e) f g h k = h e k
Ends-mono P P' Q Q' R R' pending f g h k = tt
