-- ===== src/Lifecycle/Terminate.antt =====
-- `terminate` of a sandbox and `_stop_sandbox` (thunder_sandbox/asynchronous/sandbox.py).
pub mod Stops
pub mod Ends
use thunder_sandbox.Prelude.{
  ℕ, ◌+◌, Bool, true, false, ◌&&◌, ◌||◌, Option, none, some, List, [], ◌∷◌, Text, codes, text_eq,
  if◌then◌else◌,
}
use thunder_sandbox.Common.Errors.{Error, ErrorKind, thunder_error, ThunderError, Result, ok, err}
use thunder_sandbox.Common.Task.{Ran, done, threw, waiting, Task, pure, throw_kind, ◌>>=◌, ◌>>◌}
use thunder_sandbox.Lifecycle.Box.{
  SandboxStatus, Box, Request, is_final, is_created, later, refresh,
}
use thunder_sandbox.Lifecycle.Poll.{Pause, Pace, fresh_pace, transient, tolerate}
use thunder_sandbox.Lifecycle.Startup.{Round, wait_for_startup}

-- one round of `_stop_sandbox`
pub record StopRound : Type 0 where
  pub request : Request (Unit {0})
  pub pause : Pause

abbrev pub go_on :
    Error → Option (Pace × Box) → Box → (Pace → Task Box (Unit {0})) → Ran (Unit {0}) × Box
go_on e none b k = (threw e, b)
go_on e (some (p, c)) b k = k p c

abbrev pub after_stop_fault :
    Option ℕ
    → Error
    → Option ThunderError
    → Pause
    → Pace
    → Box
    → (Pace → Task Box (Unit {0}))
    → Ran (Unit {0}) × Box
after_stop_fault deadline e none pause p b k = (threw e, b)
after_stop_fault deadline e (some t) pause p b k = go_on e (tolerate deadline t pause p b) b k

abbrev pub after_stop :
    Option ℕ
    → Result (Unit {0})
    → Pause
    → Pace
    → Box
    → (Pace → Task Box (Unit {0}))
    → Ran (Unit {0}) × Box
after_stop deadline (ok u) pause p b k = (done tt, record b { stops = b.stops + 1 })
after_stop deadline (err e) pause p b k = after_stop_fault deadline e (transient e) pause p b k

unfoldable pub poll_stop : Option ℕ → List StopRound → Pace → Task Box (Unit {0})
poll_stop deadline [] p b = (waiting, b)
poll_stop deadline (r ∷ rs) p b =
    let rest = poll_stop deadline rs in
    after_stop deadline r.request.reply r.pause p (later r.request.took b) rest

-- `_stop_sandbox`
unfoldable pub stop_sandbox : Option ℕ → List StopRound → Task Box (Unit {0})
stop_sandbox deadline rs = poll_stop deadline rs fresh_pace

-- what the API and the clock answer to one call of `terminate`
pub record Answers : Type 0 where
  pub first_stop : List StopRound
  pub startup : List Round
  pub second_stop : List StopRound
  pub last : Request SandboxStatus

-- a `ConflictError` with the code `sandbox_not_ready`
abbrev pub code_is : Text → Option Text → Bool
code_is t none = false
code_is t (some c) = text_eq c t

abbrev pub is_not_ready : Error → Bool
is_not_ready (thunder_error e) = elim e.kind [
  | ErrorKind.conflict ↦ code_is (codes "sandbox_not_ready") e.code
  | _ ↦ false
]
is_not_ready _ = false

-- the second stop, and whether one was needed
unfoldable pub stop_if_live : Option ℕ → List StopRound → Task Box Bool
stop_if_live deadline rs b =
    if is_final b.status then (done false, b) else (do stop_sandbox deadline rs; pure true) b

unfoldable pub stop_after_startup : Option ℕ → Answers → Task Box Bool
stop_after_startup deadline a = do
  started ← wait_for_startup deadline a.startup
  if started then stop_if_live deadline a.second_stop else throw_kind ErrorKind.sandbox_timeout

-- the `except ConflictError` clause
abbrev pub on_conflict : Ran (Unit {0}) × Box → Task Box Bool → Ran Bool × Box
on_conflict (done u, b) k = (done true, b)
on_conflict (threw e, b) k = if is_not_ready e && is_created b.status then k b else (threw e, b)
on_conflict (waiting, b) k = (waiting, b)

abbrev pub as_ran : Result (Unit {0}) × Box → Ran (Unit {0}) × Box
as_ran (ok u, b) = (done u, b)
as_ran (err e, b) = (threw e, b)

unfoldable pub refresh_if : Request SandboxStatus → Bool → Task Box (Unit {0})
refresh_if q true b = as_ran (refresh q b)
refresh_if q false b = (done tt, b)

unfoldable pub stop_and_refresh : Option ℕ → Answers → Task Box (Unit {0})
stop_and_refresh deadline a = do
  stopped ← λ b. on_conflict (stop_sandbox deadline a.first_stop b) (stop_after_startup deadline a)
  refresh_if a.last stopped

-- the `finally` clause: the connection is closed, and the client if the sandbox owns it
abbrev pub close_all : Bool → Box → Box
close_all owns b = record b { connection_closed = true; client_closed = b.client_closed || owns }

abbrev pub finally : Bool → Ran (Unit {0}) × Box → Ran (Unit {0}) × Box
finally owns (done u, b) = (done u, close_all owns b)
finally owns (threw e, b) = (threw e, close_all owns b)
finally owns (waiting, b) = (waiting, b)

-- `terminate`
unfoldable pub terminate_sandbox : Bool → Option ℕ → Answers → Task Box (Unit {0})
terminate_sandbox owns deadline a b =
    finally owns (if is_final b.status then (done tt, b) else stop_and_refresh deadline a b)
