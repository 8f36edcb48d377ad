-- ===== src/Operations/Command.antt =====
-- `_run_idempotent_command` (thunder_sandbox/asynchronous/sandbox.py), and how an operation ends.
pub mod Ends
use thunder_sandbox.Prelude.{
  ℕ, Bool, true, false, ◌&&◌, not, Option, none, some, List, ℤ, is_nat, map, if◌then◌else◌,
}
use thunder_sandbox.Common.Errors.{
  Error, ErrorKind, ThunderError, thunder_error, plain, Result, ok, err,
}
use thunder_sandbox.Ssh.Manager.{SshError, Manager, Reply, returned, raised}
use thunder_sandbox.Ssh.Retry.{
  Round, Loop, Outcome, success, failure, exhausted, late, running, run,
}

-- How an operation ends: it returns, it passes on what the connection manager passed on, or it raises
-- an exception of its own. It is `pending` while the answers that were given are used up.
pub data Ended {ℓ} (A : Type ℓ) : Type ℓ where
  returns : A → Ended A
  passes : SshError → Ended A
  raises : Error → Ended A
  pending : Ended A

infixl 5 ◌>>=◌ ◌>>◌
unfoldable pub ◌>>=◌ {ℓ κ} : {A : Type ℓ} {B : Type κ} → Ended A → (A → Ended B) → Ended B
returns a >>= f = f a
passes e >>= f = passes e
raises e >>= f = raises e
pending >>= f = pending

abbrev pub ◌>>◌ {ℓ κ} : {A : Type ℓ} {B : Type κ} → Ended A → Ended B → Ended B
m >> k = m >>= λ _. k

abbrev pub raise_kind {ℓ} : {A : Type ℓ} → ErrorKind → Ended A
raise_kind k = raises (thunder_error (plain k))

abbrev pub from_result {ℓ} : {A : Type ℓ} → Result A → Ended A
from_result (ok a) = returns a
from_result (err e) = raises e

abbrev pub require : Bool → ErrorKind → Ended (Unit {0})
require true k = returns tt
require false k = raise_kind k

-- `SSHCompletedProcess`, with what the caller reads in its output
pub record Completed {ℓ} (A : Type ℓ) : Type ℓ where
  pub returncode : Option ℤ
  pub stdout : A

abbrev pub is_zero : Option ℤ → Bool
is_zero none = false
is_zero (some n) = is_nat 0 n

-- the end of the inner function `run`: no exit code, or one that asks for another attempt
abbrev pub acknowledged {ℓ} :
    {A : Type ℓ} → (ℤ → Bool) → Option ℤ → Completed A → Reply (Completed A)
acknowledged retry none c = raised SshError.retryable_operation
acknowledged retry (some n) c = if retry n then raised SshError.retryable_operation else returned c

abbrev pub check_reply {ℓ} : {A : Type ℓ} → (ℤ → Bool) → Reply (Completed A) → Reply (Completed A)
check_reply retry (returned c) = acknowledged retry c.returncode c
check_reply retry (raised e) = raised e

abbrev pub checked_round {ℓ} : {A : Type ℓ} → (ℤ → Bool) → Round (Completed A) → Round (Completed A)
checked_round retry r = record r { operation = λ c. check_reply retry (r.operation c) }

-- what the manager's `run` comes to; its own `ConnectionError`s are those of budget and deadline
abbrev pub ended {ℓ} : {A : Type ℓ} → Outcome A → Ended A
ended (success a m) = returns a
ended (failure e m) = passes e
ended (exhausted t m) = raise_kind ErrorKind.connection
ended (late t m) = raise_kind ErrorKind.connection
ended (running l) = pending

-- the state of the connection when an operation begins, and what its rounds meet
pub record Call {ℓ} (A : Type ℓ) : Type ℓ where
  pub manager : Manager
  pub now : ℕ
  pub deadline : Option ℕ
  pub rounds : List (Round A)

unfoldable pub run_checked {ℓ} :
    {A : Type ℓ} → (ℤ → Bool) → Call (Completed A) → Ended (Completed A)
run_checked retry c = ended (run c.deadline (map (checked_round retry) c.rounds) c.manager c.now)

-- `_run_idempotent_command`
unfoldable pub run_idempotent {ℓ} :
    {A : Type ℓ} → (ℤ → Bool) → Bool → Call (Completed A) → Ended (Completed A)
run_idempotent retry check c = do
  r ← run_checked retry c
  if check && not (is_zero r.returncode) then raise_kind ErrorKind.sandbox_failed else returns r

abbrev pub never : ℤ → Bool
never n = false

-- the exit code 75
abbrev pub asks_again : ℤ → Bool
asks_again n = is_nat 75 n
