-- ===== src/Lifecycle/Startup.antt =====
-- `_wait_for_startup` (thunder_sandbox/asynchronous/sandbox.py).
pub mod Rounds
pub mod Ends
use thunder_sandbox.Prelude.{
  ℕ, ◌+◌, Bool, true, false, Option, none, some, List, [], ◌∷◌, not, if◌then◌else◌,
}
use thunder_sandbox.Common.Errors.{Error, ErrorKind, thunder_error, ThunderError, Result, ok, err}
use thunder_sandbox.Common.Task.{Ran, done, threw, waiting, Task}
use thunder_sandbox.Lifecycle.Box.{SandboxStatus, Box, Request, is_created, read_startup_state}
use thunder_sandbox.Lifecycle.Poll.{
  Pause, Pace, fresh_pace, slower, is_late, transient, tolerate, sleep_until_next_poll,
}

-- the answers to one round of the loop
pub record Round : Type 0 where
  pub wait : Request SandboxStatus
  pub read : Request SandboxStatus
  pub pause : Pause

-- how a round ends: the call returns or raises, or the loop goes on
pub data Turn : Type 0 where
  answers : Bool → Turn
  raises : Error → Turn
  again : Pace → Turn

-- `except _WaitWindowElapsedError`
abbrev pub is_elapsed : Error → Bool
is_elapsed (thunder_error e) = elim e.kind [ ErrorKind.wait_window_elapsed ↦ true | _ ↦ false ]
is_elapsed _ = false

abbrev pub resume_after : Error → Option (Pace × Box) → Box → Turn × Box
resume_after e none b = (raises e, b)
resume_after e (some (p, c)) b = (again p, c)

abbrev pub after_fault : Option ℕ → Error → Option ThunderError → Pause → Pace → Box → Turn × Box
after_fault deadline e none pause p b = (raises e, b)
after_fault deadline e (some t) pause p b = resume_after e (tolerate deadline t pause p b) b

unfoldable pub after_read : Option ℕ → Pause → Pace → Result (Unit {0}) × Box → Turn × Box
after_read deadline pause p (ok u, b) =
    if not (is_created b.status)
    then (answers true, b)
    else if is_late deadline b.now
    then (answers false, b)
    else (
      again (record { failing_since = none; delay = slower p.delay }),
      sleep_until_next_poll deadline p.delay none pause b,
    )
after_read deadline pause p (err e, b) =
    if is_elapsed e
    then if is_late deadline b.now then (answers false, b) else (again fresh_pace, b)
    else after_fault deadline e (transient e) pause p b

unfoldable pub startup_round : Option ℕ → Round → Pace → Box → Turn × Box
startup_round deadline r p b = after_read deadline r.pause p (read_startup_state r.wait r.read b)

abbrev pub follow : Turn × Box → (Pace → Task Box Bool) → Ran Bool × Box
follow (answers x, b) k = (done x, b)
follow (raises e, b) k = (threw e, b)
follow (again p, b) k = k p b

unfoldable pub poll_startup : Option ℕ → List Round → Pace → Task Box Bool
poll_startup deadline [] p b = (waiting, b)
poll_startup deadline (r ∷ rs) p b =
    let rest = poll_startup deadline rs in follow (startup_round deadline r p b) rest

unfoldable pub wait_for_startup : Option ℕ → List Round → Task Box Bool
wait_for_startup deadline rs = poll_startup deadline rs fresh_pace
