-- ===== src/Process/Cleanup.antt =====
-- Waiting for a durable process, and the removal of its remote artifacts
-- (thunder_sandbox/asynchronous/process.py).
use thunder_sandbox.Prelude.{
  ◌+◌, true, false, ◌&&◌, ◌||◌, Option, none, some, List, [], ◌∷◌, ℤ, if◌then◌else◌,
}
use thunder_sandbox.Common.Errors.{assertion_error, Result, ok, err}
use thunder_sandbox.Common.Task.{done, threw, Task, pure, throw, wait_on, ◌>>=◌, ◌>>◌}
use thunder_sandbox.Jobs.State.{terminal}
use thunder_sandbox.Jobs.Status.{JobStatus}
use thunder_sandbox.Process.Handle.{Handle, is_terminal, refresh_status}

-- `_maybe_auto_cleanup`: a new task, unless one is there that is not done
unfoldable pub maybe_auto_cleanup : Task Handle (Unit {0})
maybe_auto_cleanup h =
    if h.retain || h.cleaned
    then (done tt, h)
    else if is_terminal h.status && (h.stdout_eof && h.stderr_eof)
    then (done tt, record h { scheduled = true })
    else (done tt, h)

-- `_cleanup_remote`; `reply` is what `_cleanup_job` comes to, should it be called
unfoldable pub cleanup_remote : Result (Unit {0}) → Task Handle (Unit {0})
cleanup_remote reply h = if h.cleaned then (done tt, h) else elim reply [
  | ok u ↦ (done tt, record h { cleaned = true; cleanups = h.cleanups + 1 })
  | err e ↦ (threw e, record h { cleanups = h.cleanups + 1 })
]

-- the scheduled task runs to its end; `_consume_cleanup_result` drops what it raises
unfoldable pub run_cleanup_task : Result (Unit {0}) → Handle → Handle
run_cleanup_task reply h =
    if h.scheduled then record (cleanup_remote reply h).1 { scheduled = false } else h

pub data Stream : Type 0 where
  stdout stderr : Stream

abbrev pub mark_eof : Stream → Handle → Handle
mark_eof Stream.stdout h = record h { stdout_eof = true }
mark_eof Stream.stderr h = record h { stderr_eof = true }

-- a reader sets its `_eof` and then reports it by `_stream_reached_eof`
unfoldable pub stream_reached_eof : Stream → Task Handle (Unit {0})
stream_reached_eof stream h = maybe_auto_cleanup (mark_eof stream h)

-- `assert status.returncode is not None`
abbrev pub asserted_code : Option ℤ → Task Handle ℤ
asserted_code none = throw assertion_error
asserted_code (some c) = pure c

-- the terminal branch of `_wait_durable`
unfoldable pub finish_wait : JobStatus → Task Handle ℤ
finish_wait s = do c ← asserted_code s.returncode; maybe_auto_cleanup; pure c

-- `_wait_durable`, with the replies to the status reads that it makes
unfoldable pub wait_durable : List (Result JobStatus) → Task Handle ℤ
wait_durable [] = wait_on
wait_durable (reply ∷ replies) =
    let again = wait_durable replies in
    do s ← refresh_status reply; if terminal s.state then finish_wait s else again

-- `cleanup`
unfoldable pub cleanup : List (Result JobStatus) → Result (Unit {0}) → Task Handle (Unit {0})
cleanup replies reply = do wait_durable replies; cleanup_remote reply
