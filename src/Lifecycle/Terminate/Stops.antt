-- ===== src/Lifecycle/Terminate/Stops.antt =====
-- The requests to stop that the API accepts while a sandbox is waited for and stopped.
use thunder_sandbox.Prelude.{
  ℕ, ◌+◌, ◌-◌, leb, ◌≡◌, refl, subst, ◌∙◌, Bool, true, false, not, Option, none, some, List, [],
  ◌∷◌, arith, if◌then◌else◌,
}
use thunder_sandbox.Common.Errors.{Error, ThunderError, Result, ok, err}
use thunder_sandbox.Common.Task.{Ran, done, threw, waiting, Task}
use thunder_sandbox.Lifecycle.Box.{
  SandboxStatus, Box, Request, later, update, is_created, is_not_found, forget_endpoint, fall_back,
  refresh, read_startup_state,
}
use thunder_sandbox.Lifecycle.Poll.{
  Pause, Pace, outage_grace, or_now, is_late, transient, tolerate, sleep_until_next_poll,
}
use thunder_sandbox.Lifecycle.Startup.{
  Round, Turn, answers, raises, again, is_elapsed, resume_after, after_fault, after_read,
  startup_round, follow, poll_startup,
}
use thunder_sandbox.Lifecycle.Terminate.{StopRound, go_on, after_stop_fault, after_stop, poll_stop}

update_stops : (r : Result SandboxStatus) (b : Box) → (update r b).1.stops ≡ b.stops
update_stops (ok s) b = refl
update_stops (err e) b = refl

pub refresh_stops : (q : Request SandboxStatus) (b : Box) → (refresh q b).1.stops ≡ b.stops
unfolding refresh
refresh_stops q b = update_stops q.reply (later q.took b)

forget_stops : (r : Result (Unit {0}) × Box) → (forget_endpoint r).1.stops ≡ r.1.stops
forget_stops (ok u, b) = refl
forget_stops (err e, b) = refl

either_stops :
    {A : Type 0} (n : ℕ) (x : Bool) (m o : A × Box)
    → m.1.stops ≡ n
    → o.1.stops ≡ n
    → (if◌then◌else◌ {A = A × Box} x m o).1.stops ≡ n
either_stops n true m o f g = f
either_stops n false m o f g = g

fall_back_stops :
    (read : Request SandboxStatus) (r : Result (Unit {0}) × Box)
    → (fall_back read r).1.stops ≡ r.1.stops
fall_back_stops read (ok u, b) = refl
fall_back_stops read (err e, b) =
    either_stops b.stops (is_not_found e) _ _ (forget_stops (refresh read b) ∙ refresh_stops read b)
      refl

read_stops :
    (wait read : Request SandboxStatus) (b : Box)
    → (read_startup_state wait read b).1.stops ≡ b.stops
unfolding read_startup_state
read_stops wait read b =
    either_stops b.stops b.wait_available _ _
      (fall_back_stops read (refresh wait b) ∙ refresh_stops wait b) (refresh_stops read b)

sleep_stops :
    (deadline : Option ℕ) (delay : ℕ) (o : Option ℕ) (pause : Pause) (b : Box)
    → (sleep_until_next_poll deadline delay o pause b).stops ≡ b.stops
unfolding sleep_until_next_poll
sleep_stops deadline delay o pause b = refl

-- the box after a fault that is tolerated
abbrev Tame : ℕ → Option (Pace × Box) → Type 0
Tame n none = Unit
Tame n (some (p, c)) = c.stops ≡ n

tolerate-Tame :
    (deadline : Option ℕ) (t : ThunderError) (pause : Pause) (p : Pace) (b : Box)
    → Tame b.stops (tolerate deadline t pause p b)
unfolding tolerate
tolerate-Tame deadline t pause p b =
    tame (leb outage_grace (b.now - or_now p.failing_since b.now)) (is_late deadline b.now) _
      (sleep_stops deadline p.delay t.retry_after pause b)
  where
    tame :
        (x y : Bool) (q : Pace × Box)
        → q.1.stops ≡ b.stops
        → Tame b.stops (if x then none else if y then none else some q)
    tame true y q h = tt
    tame false true q h = tt
    tame false false q h = h

resume_stops :
    (e : Error) (b : Box) (o : Option (Pace × Box))
    → Tame b.stops o
    → (resume_after e o b).1.stops ≡ b.stops
resume_stops e b none h = refl
resume_stops e b (some (p, c)) h = h

fault_stops :
    (deadline : Option ℕ) (e : Error) (o : Option ThunderError) (pause : Pause) (p : Pace) (b : Box)
    → (after_fault deadline e o pause p b).1.stops ≡ b.stops
fault_stops deadline e none pause p b = refl
fault_stops deadline e (some t) pause p b = resume_stops e b _ (tolerate-Tame deadline t pause p b)

after_read_stops :
    (deadline : Option ℕ) (pause : Pause) (p : Pace) (r : Result (Unit {0}) × Box)
    → (after_read deadline pause p r).1.stops ≡ r.1.stops
unfolding after_read
after_read_stops deadline pause p (ok u, b) =
    either_stops b.stops (not (is_created b.status)) _ _ refl (
      either_stops b.stops (is_late deadline b.now) _ _ refl
        (sleep_stops deadline p.delay none pause b))
after_read_stops deadline pause p (err e, b) =
    either_stops b.stops (is_elapsed e) _ _
      (either_stops b.stops (is_late deadline b.now) _ _ refl refl)
      (fault_stops deadline e (transient e) pause p b)

follow_stops :
    (n : ℕ) (t : Turn × Box) (k : Pace → Task Box Bool)
    → t.1.stops ≡ n
    → ((q : Pace) (c : Box) → (k q c).1.stops ≡ c.stops)
    → (follow t k).1.stops ≡ n
follow_stops n (answers x, c) k h f = h
follow_stops n (raises e, c) k h f = h
follow_stops n (again q, c) k h f = f q c ∙ h

pub startup_stops :
    (deadline : Option ℕ) (rs : List Round) (p : Pace) (b : Box)
    → (poll_startup deadline rs p b).1.stops ≡ b.stops
unfolding poll_startup startup_round
startup_stops deadline [] p b = refl
startup_stops deadline (r ∷ rs) p b =
    let rest = startup_stops deadline rs in
    follow_stops b.stops (startup_round deadline r p b) (poll_startup deadline rs)
      (after_read_stops deadline r.pause p (read_startup_state r.wait r.read b)
        ∙ read_stops r.wait r.read b)
      rest

-- what has been stopped, when a call of `_stop_sandbox` ends
abbrev pub Stopped : ℕ → Ran (Unit {0}) × Box → Type 0
Stopped n (done u, c) = c.stops ≡ n + 1
Stopped n (threw e, c) = c.stops ≡ n
Stopped n (waiting, c) = c.stops ≡ n

go_on-Stopped :
    (n : ℕ) (e : Error) (o : Option (Pace × Box)) (b : Box) (k : Pace → Task Box (Unit {0}))
    → b.stops ≡ n
    → Tame n o
    → ((p : Pace) (c : Box) → c.stops ≡ n → Stopped n (k p c))
    → Stopped n (go_on e o b k)
go_on-Stopped n e none b k h t f = h
go_on-Stopped n e (some (p, c)) b k h t f = f p c t

stop_fault-Stopped :
    (n : ℕ) (deadline : Option ℕ) (e : Error) (o : Option ThunderError) (pause : Pause) (p : Pace)
    (b : Box) (k : Pace → Task Box (Unit {0}))
    → b.stops ≡ n
    → ((p : Pace) (c : Box) → c.stops ≡ n → Stopped n (k p c))
    → Stopped n (after_stop_fault deadline e o pause p b k)
stop_fault-Stopped n deadline e none pause p b k h f = h
stop_fault-Stopped n deadline e (some t) pause p b k h f =
    go_on-Stopped n e _ b k h
      (subst (λ m. Tame m (tolerate deadline t pause p b)) h (tolerate-Tame deadline t pause p b)) f

after_stop-Stopped :
    (n : ℕ) (deadline : Option ℕ) (r : Result (Unit {0})) (pause : Pause) (p : Pace) (b : Box)
    (k : Pace → Task Box (Unit {0}))
    → b.stops ≡ n
    → ((p : Pace) (c : Box) → c.stops ≡ n → Stopped n (k p c))
    → Stopped n (after_stop deadline r pause p b k)
after_stop-Stopped n deadline (ok u) pause p b k h f = omega (arith, h)
after_stop-Stopped n deadline (err e) pause p b k h f =
    stop_fault-Stopped n deadline e (transient e) pause p b k h f

pub poll_stop-Stopped :
    (n : ℕ) (deadline : Option ℕ) (rs : List StopRound) (p : Pace) (b : Box)
    → b.stops ≡ n
    → Stopped n (poll_stop deadline rs p b)
unfolding poll_stop
poll_stop-Stopped n deadline [] p b h = h
poll_stop-Stopped n deadline (r ∷ rs) p b h =
    let rest = poll_stop-Stopped n deadline rs in
    after_stop-Stopped n deadline r.request.reply r.pause p (later r.request.took b)
      (poll_stop deadline rs) h rest
