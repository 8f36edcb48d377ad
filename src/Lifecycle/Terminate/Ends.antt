-- ===== src/Lifecycle/Terminate/Ends.antt =====
-- How terminating a sandbox ends.
use thunder_sandbox.Prelude.{
  ℕ, ◌+◌, ◌≡◌, ◌⊎◌, inl, inr, refl, ◌∙◌, Bool, true, false, not, ◌||◌, ◌&&◌, Option, List,
  if◌then◌else◌,
}
use thunder_sandbox.Common.Errors.{ErrorKind, Result, ok, err}
use thunder_sandbox.Common.Task.{Ran, done, threw, waiting, pure, throw_kind, resume, ◌>>=◌}
use thunder_sandbox.Lifecycle.Box.{SandboxStatus, Box, Request, is_created, is_final, refresh}
use thunder_sandbox.Lifecycle.Poll.{fresh_pace}
use thunder_sandbox.Lifecycle.Startup.{poll_startup, wait_for_startup}
use thunder_sandbox.Lifecycle.Terminate.{
  StopRound, poll_stop, stop_sandbox, Answers, is_not_ready, stop_if_live, stop_after_startup,
  on_conflict, as_ran, refresh_if, stop_and_refresh, finally, terminate_sandbox,
}
use thunder_sandbox.Lifecycle.Terminate.Stops.{
  refresh_stops, startup_stops, Stopped, poll_stop-Stopped,
}

-- how the first part of `terminate` ends, which stops the sandbox or finds that it has ended
abbrev Marked : ℕ → Ran Bool × Box → Type 0
Marked n (done true, c) = c.stops ≡ n + 1
Marked n (done false, c) = (c.stops ≡ n) × (is_final c.status ≡ true)
Marked n (threw e, c) = c.stops ≡ n
Marked n (waiting, c) = c.stops ≡ n

Stopped-Marked :
    (n : ℕ) (r : Ran (Unit {0}) × Box) → Stopped n r → Marked n (resume r (λ u. pure true))
Stopped-Marked n (done u, c) h = h
Stopped-Marked n (threw e, c) h = h
Stopped-Marked n (waiting, c) h = h

live_stop-Marked :
    (n : ℕ) (deadline : Option ℕ) (rs : List StopRound) (b : Box)
    → b.stops ≡ n
    → Marked n (stop_if_live deadline rs b)
unfolding stop_if_live stop_sandbox ◌>>=◌
live_stop-Marked n deadline rs b h = choice (is_final b.status) refl
  where
    choice :
        (x : Bool)
        → is_final b.status ≡ x
        → Marked n (
            if◌then◌else◌ {A = Ran Bool × Box} x
              (done false, b)
              (resume (poll_stop deadline rs fresh_pace b) (λ u. pure true)))
    choice true e = (h, e)
    choice false e = Stopped-Marked n _ (poll_stop-Stopped n deadline rs fresh_pace b h)

started-Marked :
    (n : ℕ) (deadline : Option ℕ) (a : Answers) (r : Ran Bool × Box)
    → r.1.stops ≡ n
    → Marked n (
        resume r λ started.
          if started
          then stop_if_live deadline a.second_stop
          else throw_kind ErrorKind.sandbox_timeout)
started-Marked n deadline a (done true, c) h = live_stop-Marked n deadline a.second_stop c h
started-Marked n deadline a (done false, c) h = h
started-Marked n deadline a (threw e, c) h = h
started-Marked n deadline a (waiting, c) h = h

conflict-Marked :
    (n : ℕ) (deadline : Option ℕ) (a : Answers) (r : Ran (Unit {0}) × Box)
    → Stopped n r
    → Marked n (on_conflict r (stop_after_startup deadline a))
unfolding stop_after_startup wait_for_startup ◌>>=◌
conflict-Marked n deadline a (done u, c) h = h
conflict-Marked n deadline a (waiting, c) h = h
conflict-Marked n deadline a (threw e, c) h = choice (is_not_ready e && is_created c.status)
  where
    choice :
        (x : Bool)
        → Marked n
            (if◌then◌else◌ {A = Ran Bool × Box} x (stop_after_startup deadline a c) (threw e, c))
    choice true =
        started-Marked n deadline a (poll_startup deadline a.startup fresh_pace c)
          (startup_stops deadline a.startup fresh_pace c ∙ h)
    choice false = h

-- What the API has been asked for, when a call of `terminate` ends: if it returns, one stop was
-- accepted, or none and the sandbox has ended; otherwise one at most.
abbrev pub Accounted : ℕ → Ran (Unit {0}) × Box → Type 0
Accounted n (done u, c) = (c.stops ≡ n + 1) ⊎ ((c.stops ≡ n) × (is_final c.status ≡ true))
Accounted n (threw e, c) = (c.stops ≡ n) ⊎ (c.stops ≡ n + 1)
Accounted n (waiting, c) = (c.stops ≡ n) ⊎ (c.stops ≡ n + 1)

refreshed-Accounted :
    (n : ℕ) (r : Result (Unit {0}) × Box) → r.1.stops ≡ n + 1 → Accounted n (as_ran r)
refreshed-Accounted n (ok u, c) h = inl h
refreshed-Accounted n (err e, c) h = inr h

Marked-Accounted :
    (n : ℕ) (q : Request SandboxStatus) (r : Ran Bool × Box)
    → Marked n r
    → Accounted n (resume r (refresh_if q))
unfolding refresh_if
Marked-Accounted n q (done true, c) h = refreshed-Accounted n (refresh q c) (refresh_stops q c ∙ h)
Marked-Accounted n q (done false, c) h = inr h
Marked-Accounted n q (threw e, c) h = inl h
Marked-Accounted n q (waiting, c) h = inl h

body-Accounted :
    (deadline : Option ℕ) (a : Answers) (b : Box)
    → Accounted b.stops (stop_and_refresh deadline a b)
unfolding stop_and_refresh stop_sandbox ◌>>=◌
body-Accounted deadline a b = Marked-Accounted b.stops a.last _ (
    conflict-Marked b.stops deadline a _
      (poll_stop-Stopped b.stops deadline a.first_stop fresh_pace b refl))

finally-Accounted :
    (n : ℕ) (owns : Bool) (r : Ran (Unit {0}) × Box) → Accounted n r → Accounted n (finally owns r)
finally-Accounted n owns (done u, c) h = h
finally-Accounted n owns (threw e, c) h = h
finally-Accounted n owns (waiting, c) h = h

-- Whatever the API answers, at most one stop of `terminate` is answered with success; and it returns
-- only if one was, or if it found that the sandbox had ended.
pub terminate_sandbox-Accounted :
    (owns : Bool) (deadline : Option ℕ) (a : Answers) (b : Box)
    → Accounted b.stops (terminate_sandbox owns deadline a b)
unfolding terminate_sandbox
terminate_sandbox-Accounted owns deadline a b =
    finally-Accounted b.stops owns _ (choice (is_final b.status) refl)
  where
    choice :
        (x : Bool)
        → is_final b.status ≡ x
        → Accounted b.stops (
            if◌then◌else◌ {A = Ran (Unit {0}) × Box} x (done tt, b) (stop_and_refresh deadline a b))
    choice true e = inr (refl, e)
    choice false e = body-Accounted deadline a b

-- the connection is closed, and the client if the sandbox owns it
abbrev pub Released : Bool → Ran (Unit {0}) × Box → Type 0
Released owns (waiting, c) = Unit
Released owns (_, c) = (c.connection_closed ≡ true) × ((c.client_closed || not owns) ≡ true)

client_closes : (x owns : Bool) → ((x || owns) || not owns) ≡ true
client_closes true owns = refl
client_closes false true = refl
client_closes false false = refl

finally-Released : (owns : Bool) (r : Ran (Unit {0}) × Box) → Released owns (finally owns r)
finally-Released owns (done u, c) = (refl, client_closes c.client_closed owns)
finally-Released owns (threw e, c) = (refl, client_closes c.client_closed owns)
finally-Released owns (waiting, c) = tt

-- When `terminate` returns or raises, the connection is closed, and so is a client that the sandbox
-- owns.
pub terminate_sandbox-Released :
    (owns : Bool) (deadline : Option ℕ) (a : Answers) (b : Box)
    → Released owns (terminate_sandbox owns deadline a b)
unfolding terminate_sandbox
terminate_sandbox-Released owns deadline a b = finally-Released owns _
