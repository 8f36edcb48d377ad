-- ===== src/Process/Handle.antt =====
-- The status of a durable `Process` (thunder_sandbox/asynchronous/process.py).
use thunder_sandbox.Prelude.{
  ℕ, Bool, false, ◌&&◌, not, Option, none, some, List, [], ℤ, if◌then◌else◌,
}
use thunder_sandbox.Common.Errors.{ErrorKind, Result}
use thunder_sandbox.Common.Task.{done, Task, pure, lift, throw_kind, ◌>>=◌, ◌>>◌}
use thunder_sandbox.Jobs.State.{terminal, state_eq, can_transition}
use thunder_sandbox.Jobs.Status.{JobStatus}

pub data Signal : Type 0 where
  term kill : Signal

-- The fields of a durable handle that change, with what it has asked of the sandbox: `signals` are
-- those that it sent, `cleanups` counts the calls of `_cleanup_job`. `scheduled` says that there
-- is a cleanup task which is not done.
pub record Handle : Type 0 where
  pub status : Option JobStatus
  pub retain : Bool
  pub cleaned : Bool
  pub scheduled : Bool
  pub stdout_eof : Bool
  pub stderr_eof : Bool
  pub signals : List (Signal × ℤ)
  pub cleanups : ℕ

-- `Process.durable`, with streams that are not captured at their end from the start
abbrev pub durable : JobStatus → Bool → Bool → Bool → Handle
durable s capture_stdout capture_stderr retain = record {
  status = some s;
  retain = retain;
  cleaned = false;
  scheduled = false;
  stdout_eof = not capture_stdout;
  stderr_eof = not capture_stderr;
  signals = [];
  cleanups = 0;
}

abbrev pub is_terminal : Option JobStatus → Bool
is_terminal none = false
is_terminal (some s) = terminal s.state

abbrev pub moves_backward : Option JobStatus → JobStatus → Bool
moves_backward none following = false
moves_backward (some current) following =
    not (state_eq following.state current.state)
    && not (can_transition current.state following.state)

unfoldable pub record_status : Option JobStatus → JobStatus → Task Handle (Unit {0})
record_status current following h =
    if moves_backward current following
    then throw_kind ErrorKind.sandbox_failed h
    else (done tt, record h { status = some following })

-- the cached status where it is final, and otherwise the one that `k` gets
abbrev pub unless_terminal : Option JobStatus → Task Handle JobStatus → Task Handle JobStatus
unless_terminal none k = k
unless_terminal (some s) k = if terminal s.state then pure s else k

unfoldable pub read_and_record : Option JobStatus → Result JobStatus → Task Handle JobStatus
read_and_record current reply = do
  following ← lift reply
  record_status current following
  pure following

-- `reply` is what `_status_reader` comes to, should it be called
unfoldable pub refresh_status : Result JobStatus → Task Handle JobStatus
refresh_status reply h = unless_terminal h.status (read_and_record h.status reply) h

unfoldable pub accept_status : JobStatus → Task Handle JobStatus
accept_status following h =
    unless_terminal h.status (do record_status h.status following; pure following) h
