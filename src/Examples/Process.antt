-- ===== src/Examples/Process.antt =====
-- Handles of thunder_sandbox/asynchronous/process.py.
use thunder_sandbox.Prelude.{◌≡◌, refl, true, false, none, some, List, [], ◌∷◌, pos}
use thunder_sandbox.Common.Errors.{ErrorKind, ok, raise}
use thunder_sandbox.Common.Task.{◌>>=◌}
use thunder_sandbox.Jobs.State.{
  prepared, running, succeeded, terminated, terminal, transitions, can_transition,
}
use thunder_sandbox.Jobs.Status.{JobStatus}
use thunder_sandbox.Process.Handle.{
  term, kill, Handle, durable, refresh_status, read_and_record, record_status, accept_status,
}
use thunder_sandbox.Process.Cleanup.{
  stdout, stderr, maybe_auto_cleanup, stream_reached_eof, finish_wait, wait_durable,
}
use thunder_sandbox.Process.Terminate.{
  Answers, terminate, first_status, await_pid, send_signal, grace, kill_job,
}
use thunder_sandbox.Process.Terminate.Ends.{Ended, terminate-Ended}
use thunder_sandbox.Process.Monotone.{Advances}
use thunder_sandbox.Process.Calls.Sequence.{Call, perform, perform_all}
use thunder_sandbox.Process.Calls.Status.{perform_all-Advances}
use thunder_sandbox.Process.Calls.Removal.{IsOver, perform_all-IsOver}

abbrev prepared_at : JobStatus
prepared_at = record { state = prepared; pid = none; returncode = none }

abbrev running_at : JobStatus
running_at = record { state = running; pid = some (pos 7); returncode = none }

abbrev succeeded_at : JobStatus
succeeded_at = record { state = succeeded; pid = some (pos 7); returncode = some (pos 0) }

abbrev terminated_at : JobStatus
terminated_at = record { state = terminated; pid = some (pos 7); returncode = some (pos 137) }

-- both streams captured, nothing retained
abbrev started : Handle
started = durable prepared_at true true false

-- TERM is ignored, one read fails, and KILL ends the job
abbrev stubborn : Answers
stubborn = record {
  first = ok running_at;
  pid_reads = ok running_at ∷ [];
  term_reply = ok running_at;
  term_at = 100;
  turns = record { now = 100; reply = raise ErrorKind.connection } ∷ [];
  kill_reply = ok terminated_at;
}

stubborn_signals : (terminate stubborn started).1.signals ≡ (term, pos 7) ∷ (kill, pos 7) ∷ []
unfolding terminate first_status await_pid send_signal grace kill_job accept_status refresh_status
    read_and_record record_status maybe_auto_cleanup terminal can_transition transitions ◌>>=◌
stubborn_signals = refl

terminate-Ended_example : Ended started.signals (terminate stubborn started)
terminate-Ended_example = terminate-Ended stubborn started

abbrev calls : List Call
calls =
    Call.refresh (ok running_at)
    ∷ Call.refresh (ok prepared_at)
    ∷ Call.waits (ok succeeded_at ∷ [])
    ∷ Call.ends stdout
    ∷ Call.ends stderr
    ∷ []

perform_all-Advances_example : Advances started (perform_all calls started)
perform_all-Advances_example = perform_all-Advances calls started

calls_status : (perform_all calls started).status ≡ some succeeded_at
unfolding perform_all perform refresh_status read_and_record record_status wait_durable finish_wait
    stream_reached_eof maybe_auto_cleanup terminal can_transition transitions ◌>>=◌
calls_status = refl

-- the second refresh would move backward and is refused
calls_scheduled : (perform_all calls started).scheduled ≡ true
unfolding perform_all perform refresh_status read_and_record record_status wait_durable finish_wait
    stream_reached_eof maybe_auto_cleanup terminal can_transition transitions ◌>>=◌
calls_scheduled = refl

perform_all-IsOver_example : IsOver (perform_all calls started)
perform_all-IsOver_example = perform_all-IsOver calls started refl calls_scheduled

-- a handle whose artifacts were removed by its second attempt
abbrev removed : Handle
removed = record (durable succeeded_at false false false) { cleaned = true; cleanups = 2 }
