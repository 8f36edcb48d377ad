-- ===== src/Lifecycle/Waiting/Ends.antt =====
-- How waiting for the end of a sandbox, or for its readiness, ends.
use thunder_sandbox.Prelude.{ℕ, ◌≡◌, refl, Bool, true, false, Option, List, if◌then◌else◌}
use thunder_sandbox.Common.Errors.{ErrorKind, Result}
use thunder_sandbox.Common.Task.{Ran, done, threw, waiting, Task, throw_kind, resume, ◌>>=◌}
use thunder_sandbox.Lifecycle.Poll.Transience.{IsTransient}
use thunder_sandbox.Lifecycle.Box.{
  SandboxStatus, created, ready, finished, failed, unknown, Box, refresh,
}
use thunder_sandbox.Lifecycle.Poll.{Pace}
use thunder_sandbox.Lifecycle.Startup.{Round, wait_for_startup}
use thunder_sandbox.Lifecycle.Streak.{Streak, InStreak, Why, Explains, rounds}
use thunder_sandbox.Lifecycle.Waiting.{
  Read, fresh, fault, gives_up, WaitRound, at_startup, ready_or_failed, wait_until_ready,
}

abbrev pub read_round : WaitRound → Box → Result (Unit {0}) × Box
read_round r = refresh r.request

-- a sandbox that is finished has the code 0, and one that has failed 1
pub data IsCodeOf : SandboxStatus → ℕ → Type 0 where
  of_finished : IsCodeOf finished 0
  of_failed : IsCodeOf failed 1

-- A code says how the sandbox ended; an exception is no transient fault, or comes after a streak of
-- faults for the grace period, or after the deadline.
abbrev pub Explained : Option ℕ → List WaitRound → Ran ℕ × Box → Type 0
Explained deadline all (done code, b) = IsCodeOf b.status code
Explained deadline all (threw e, b) = Explains read_round IsTransient deadline all e b
Explained deadline all (waiting, b) = Unit

module _ (deadline : Option ℕ) (seen : List WaitRound) where
  -- what a read says, at the time that it ends
  abbrev Grounded : Read × Box → Type 0
  Grounded (fresh, b) = Unit
  Grounded (fault since hint, b) = Streak read_round IsTransient seen since b
  Grounded (gives_up e, b) = Why read_round IsTransient deadline seen e b

module _ (deadline : Option ℕ) (all seen rest : List WaitRound)
    (whole : rounds seen rest ≡ all) where
  abbrev Goes : (Pace → Task Box ℕ) → Type 0
  Goes k =
      (p : Pace) (c : Box)
      → InStreak read_round IsTransient seen p.failing_since c
      → Explained deadline all (k p c)

abbrev pub ReadyIf : Ran (Unit {0}) × Box → Type 0
ReadyIf (done u, b) = b.status ≡ ready
ReadyIf _ = Unit

at_startup-ReadyIf : (s : SandboxStatus) (b : Box) → b.status ≡ s → ReadyIf (at_startup s b)
at_startup-ReadyIf ready b e = e
at_startup-ReadyIf created b e = tt
at_startup-ReadyIf finished b e = tt
at_startup-ReadyIf failed b e = tt
at_startup-ReadyIf unknown b e = tt

started-ReadyIf :
    (r : Ran Bool × Box)
    → ReadyIf (
        resume r
          λ started. if started then ready_or_failed else throw_kind ErrorKind.sandbox_timeout)
started-ReadyIf (done true, b) = at_startup-ReadyIf b.status b refl
started-ReadyIf (done false, b) = tt
started-ReadyIf (threw e, b) = tt
started-ReadyIf (waiting, b) = tt

-- `wait_until_ready` returns only a sandbox that is ready.
pub wait_until_ready-ReadyIf :
    (deadline : Option ℕ) (rs : List Round) (b : Box) → ReadyIf (wait_until_ready deadline rs b)
unfolding wait_until_ready ◌>>=◌
wait_until_ready-ReadyIf deadline rs b = started-ReadyIf (wait_for_startup deadline rs b)
