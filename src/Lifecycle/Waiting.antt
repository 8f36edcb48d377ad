-- ===== src/Lifecycle/Waiting.antt =====
-- `wait` and `wait_until_ready` of a sandbox (thunder_sandbox/asynchronous/sandbox.py), where no
-- command was given at creation.
pub mod Ends
pub mod Bound
use thunder_sandbox.Prelude.{
  ℕ, ◌-◌, Bool, true, false, Option, none, some, List, [], ◌∷◌, leb, if◌then◌else◌,
}
use thunder_sandbox.Common.Errors.{
  Error, ErrorKind, ThunderError, thunder_error, plain, Result, ok, err,
}
use thunder_sandbox.Common.Task.{Ran, done, threw, waiting, Task, pure, throw_kind, ◌>>=◌}
use thunder_sandbox.Lifecycle.Box.{SandboxStatus, finished, failed, ready, Box, Request, refresh}
use thunder_sandbox.Lifecycle.Poll.{
  outage_grace, Pause, Pace, fresh_pace, slower, is_late, transient, or_now, sleep_until_next_poll,
}
use thunder_sandbox.Lifecycle.Startup.{Round, wait_for_startup}

-- what `_refresh_while_waiting` comes to: a fresh status, a fault to be waited out with its hint, or
-- an exception
pub data Read : Type 0 where
  fresh : Read
  fault : ℕ → Option ℕ → Read
  gives_up : Error → Read

abbrev pub on_fault : Option ℕ → Error → Option ThunderError → Option ℕ → ℕ → Read
on_fault deadline e none failing now = gives_up e
on_fault deadline e (some t) failing now =
    if leb outage_grace (now - or_now failing now)
    then gives_up e
    else if is_late deadline now
    then gives_up e
    else fault (or_now failing now) t.retry_after

abbrev pub read_of : Option ℕ → Option ℕ → Result (Unit {0}) × Box → Read × Box
read_of deadline failing (ok u, b) = (fresh, b)
read_of deadline failing (err e, b) = (on_fault deadline e (transient e) failing b.now, b)

-- `_refresh_while_waiting`
unfoldable pub refresh_while_waiting :
    Option ℕ → Option ℕ → Request SandboxStatus → Box → Read × Box
refresh_while_waiting deadline failing q b = read_of deadline failing (refresh q b)

-- the answers to one round of `wait`
pub record WaitRound : Type 0 where
  pub request : Request SandboxStatus
  pub pause : Pause

abbrev pub exit_code : SandboxStatus → Option ℕ
exit_code finished = some 0
exit_code failed = some 1
exit_code _ = none

-- the end of a round: the deadline is tested, and the next round follows a pause
abbrev pub at_status : Option ℕ → Pause → ℕ → Option ℕ → Box → (Pace → Task Box ℕ) → Ran ℕ × Box
at_status deadline pause delay (some code) b k = (done code, b)
at_status deadline pause delay none b k =
    if is_late deadline b.now
    then (threw (thunder_error (plain ErrorKind.sandbox_timeout)), b)
    else k (record { failing_since = none; delay = slower delay })
        (sleep_until_next_poll deadline delay none pause b)

abbrev pub at_fault : Option ℕ → Pause → ℕ → ℕ → Option ℕ → Box → (Pace → Task Box ℕ) → Ran ℕ × Box
at_fault deadline pause delay since hint b k =
    if is_late deadline b.now
    then (threw (thunder_error (plain ErrorKind.sandbox_timeout)), b)
    else k (record { failing_since = some since; delay = slower delay })
        (sleep_until_next_poll deadline delay hint pause b)

abbrev pub after_refresh : Option ℕ → Pause → ℕ → Read × Box → (Pace → Task Box ℕ) → Ran ℕ × Box
after_refresh deadline pause delay (fresh, b) k =
    at_status deadline pause delay (exit_code b.status) b k
after_refresh deadline pause delay (fault since hint, b) k =
    at_fault deadline pause delay since hint b k
after_refresh deadline pause delay (gives_up e, b) k = (threw e, b)

unfoldable pub poll_end : Option ℕ → List WaitRound → Pace → Task Box ℕ
poll_end deadline [] p b = (waiting, b)
poll_end deadline (r ∷ rs) p b =
    let rest = poll_end deadline rs in
    after_refresh deadline r.pause p.delay
      (refresh_while_waiting deadline p.failing_since r.request b) rest

-- `wait`
unfoldable pub wait_for_end : Option ℕ → List WaitRound → Task Box ℕ
wait_for_end deadline rs = poll_end deadline rs fresh_pace

abbrev pub at_startup : SandboxStatus → Task Box (Unit {0})
at_startup ready b = (done tt, b)
at_startup _ b = (threw (thunder_error (plain ErrorKind.sandbox_failed)), b)

abbrev pub ready_or_failed : Task Box (Unit {0})
ready_or_failed b = at_startup b.status b

-- `wait_until_ready`
unfoldable pub wait_until_ready : Option ℕ → List Round → Task Box (Unit {0})
wait_until_ready deadline rs = do
  started ← wait_for_startup deadline rs
  if started then ready_or_failed else throw_kind ErrorKind.sandbox_timeout
