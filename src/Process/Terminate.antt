-- ===== src/Process/Terminate.antt =====
-- `Process.terminate` of a durable process (thunder_sandbox/asynchronous/process.py). Times are
-- milliseconds.
pub mod Reading
pub mod Ends
use thunder_sandbox.Prelude.{
  ℕ, ◌+◌, ◌*◌, ◌-◌, Bool, true, false, ◌&&◌, ◌||◌, not, Option, none, some, List, [], ◌∷◌, ◌++◌, ℤ,
  ltb, is_some, if◌then◌else◌,
}
use thunder_sandbox.Common.Errors.{Error, ErrorKind, thunder_error, type_error, Result, ok, err}
use thunder_sandbox.Common.Task.{
  Ran, done, threw, waiting, Task, pure, throw, wait_on, lift, throw_kind, ◌>>=◌, ◌>>◌,
}
use thunder_sandbox.Jobs.State.{terminal}
use thunder_sandbox.Jobs.Status.{JobStatus}
use thunder_sandbox.Process.Handle.{Signal, term, kill, Handle, refresh_status, accept_status}
use thunder_sandbox.Process.Cleanup.{maybe_auto_cleanup}

abbrev pub termination_grace : ℕ
termination_grace = 5000

-- `_signal_job(signal, pid)`, which compares the PID with zero; `reply` is its status
unfoldable pub send_signal : Signal → Option ℤ → Result JobStatus → Task Handle JobStatus
send_signal g none reply h = (threw type_error, h)
send_signal g (some p) reply h =
    (do s ← lift reply; accept_status s) (record h { signals = h.signals ++ (g, p) ∷ [] })

abbrev pub known_or : Option JobStatus → Task Handle JobStatus → Task Handle JobStatus
known_or none m = m
known_or (some s) m = pure s

-- the status with which `terminate` begins
unfoldable pub first_status : Result JobStatus → Task Handle JobStatus
first_status reply h = known_or h.status (refresh_status reply) h

-- the loop that waits for a PID; a terminal status ends it as well
unfoldable pub await_pid : List (Result JobStatus) → JobStatus → Task Handle JobStatus
await_pid [] s = if terminal s.state || is_some s.pid then pure s else wait_on
await_pid (reply ∷ replies) s =
    let again = await_pid replies in
    if terminal s.state || is_some s.pid then pure s else (do t ← refresh_status reply; again t)

-- one turn of the grace period: the clock at its test, and what the status read comes to
pub record Turn : Type 0 where
  pub now : ℕ
  pub reply : Result JobStatus

-- a read that ends with `ConnectionError` ends the grace period
abbrev pub is_connection : Error → Bool
is_connection (thunder_error e) = elim e.kind [ ErrorKind.connection ↦ true | _ ↦ false ]
is_connection _ = false

abbrev pub caught :
    Ran JobStatus × Handle
    → JobStatus
    → (JobStatus → Task Handle JobStatus)
    → Ran JobStatus × Handle
caught (done t, h) s k = if terminal t.state then (done t, h) else k t h
caught (threw e, h) s k = if is_connection e then (done s, h) else (threw e, h)
caught (waiting, h) s k = (waiting, h)

-- the grace period up to `deadline`: it returns the last status seen
unfoldable pub grace : ℕ → List Turn → JobStatus → Task Handle JobStatus
grace deadline [] s h = (waiting, h)
grace deadline (turn ∷ turns) s h =
    let again = grace deadline turns in
    if ltb turn.now deadline then caught (refresh_status turn.reply h) s again else (done s, h)

-- What the sandbox and the clock answer to one call of `terminate`.
pub record Answers : Type 0 where
  pub first : Result JobStatus
  pub pid_reads : List (Result JobStatus)
  pub term_reply : Result JobStatus
  pub term_at : ℕ
  pub turns : List Turn
  pub kill_reply : Result JobStatus

unfoldable pub kill_job : Answers → JobStatus → Task Handle (Unit {0})
kill_job a s = do
  t ← send_signal kill s.pid a.kill_reply
  if terminal t.state then maybe_auto_cleanup else throw_kind ErrorKind.sandbox_failed

unfoldable pub terminate : Answers → Task Handle (Unit {0})
terminate a = do
  s ← first_status a.first
  t ← await_pid a.pid_reads s
  if terminal t.state then pure tt else (do
    u ← send_signal term t.pid a.term_reply
    if terminal u.state then maybe_auto_cleanup else (do
      v ← grace (a.term_at + termination_grace) a.turns u
      if terminal v.state then maybe_auto_cleanup else kill_job a v))
