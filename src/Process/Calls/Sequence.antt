-- ===== src/Process/Calls/Sequence.antt =====
-- Any sequence of calls on a handle.
use thunder_sandbox.Prelude.{List, [], ◌∷◌}
use thunder_sandbox.Common.Errors.{Result}
use thunder_sandbox.Jobs.Status.{JobStatus}
use thunder_sandbox.Process.Handle.{Handle, refresh_status, accept_status}
use thunder_sandbox.Process.Cleanup.{
  Stream, run_cleanup_task, stream_reached_eof, wait_durable, cleanup,
}
use thunder_sandbox.Process.Terminate.{Answers, terminate}
use thunder_sandbox.Process.Calls.{
  IsKept, wait-Moves, cleanup-Moves, terminate-Moves, eof-keeps, task-keeps,
}

-- What may happen to a handle, with the answers that the sandbox gives: `poll` and the readers
-- refresh, a signal's reply is accepted, a stream ends, the cleanup task runs, `wait`, `cleanup`
-- and `terminate` are called. Calls that overlap are sequences of their elementary steps.
pub data Call : Type 0 where
  refresh : Result JobStatus → Call
  accept : JobStatus → Call
  ends : Stream → Call
  task_runs : Result (Unit {0}) → Call
  waits : List (Result JobStatus) → Call
  cleans : List (Result JobStatus) → Result (Unit {0}) → Call
  terminates : Answers → Call

unfoldable pub perform : Call → Handle → Handle
perform (refresh reply) h = (refresh_status reply h).1
perform (accept s) h = (accept_status s h).1
perform (ends stream) h = (stream_reached_eof stream h).1
perform (task_runs reply) h = run_cleanup_task reply h
perform (waits replies) h = (wait_durable replies h).1
perform (cleans replies reply) h = (cleanup replies reply h).1
perform (terminates answers) h = (terminate answers h).1

unfoldable pub perform_all : List Call → Handle → Handle
unfolding perform
perform_all [] h = h
perform_all (c ∷ cs) h = perform_all cs (perform c h)

module _ {R : Handle → Handle → Type 0} (kept : IsKept R) where
  perform-keeps : (c : Call) (h : Handle) → R h (perform c h)
  unfolding perform
  perform-keeps (Call.refresh reply) h = (kept.refresh reply).at h
  perform-keeps (Call.accept s) h = (kept.accept s).at h
  perform-keeps (Call.ends stream) h = eof-keeps kept stream h
  perform-keeps (Call.task_runs reply) h = task-keeps kept reply h
  perform-keeps (Call.waits replies) h = (wait-Moves kept replies).at h
  perform-keeps (Call.cleans replies reply) h = (cleanup-Moves kept replies reply).at h
  perform-keeps (Call.terminates answers) h = (terminate-Moves kept answers).at h

  pub perform_all-keeps : (cs : List Call) (h : Handle) → R h (perform_all cs h)
  unfolding perform_all
  perform_all-keeps [] h = kept.order.same h
  perform_all-keeps (c ∷ cs) h =
      kept.order.chain h (perform c h) _ (perform-keeps c h) (perform_all-keeps cs (perform c h))
