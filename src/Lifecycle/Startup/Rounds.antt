-- ===== src/Lifecycle/Startup/Rounds.antt =====
-- What the end of one round says when a sandbox is waited for.
use thunder_sandbox.Prelude.{
  ◌≢◌, true≢false, sym, ap, ◌∙◌, List, ℕ, ◌-◌, ◌≤◌, ◌≡◌, inl, inr, refl, Bool, true, false, not,
  Option, none, some, arith, leb, if◌then◌else◌,
}
use thunder_sandbox.Common.Errors.{Error, ThunderError, Result, ok, err}
use thunder_sandbox.Lifecycle.Poll.Transience.{IsTransient, transient-IsTransient, none-IsTransient}
use thunder_sandbox.Lifecycle.Box.{created, Box, is_created, read_startup_state}
use thunder_sandbox.Lifecycle.Streak.{Late, is_late-Late, Streak, InStreak, slept-InStreak, Why}
use thunder_sandbox.Lifecycle.Poll.{
  outage_grace, Pause, Pace, slower, is_late, transient, or_now, tolerate, sleep_until_next_poll,
}
use thunder_sandbox.Lifecycle.Startup.{
  Round, Turn, answers, raises, again, is_elapsed, resume_after, after_fault, after_read,
}

-- a fault that is waited out is no end of a window, and transient
abbrev pub IsFault : Error → Type 0
IsFault e = (is_elapsed e ≡ false) × IsTransient e

abbrev pub read_round : Round → Box → Result (Unit {0}) × Box
read_round r = read_startup_state r.wait r.read

-- a loop that goes on from `floor` after a pause, and after the rounds `seen`
pub record Going (deadline : Option ℕ) (seen : List Round) (floor : ℕ) (p : Pace) (b : Box)
    : Type 0 where
  pub since : InStreak read_round IsFault seen p.failing_since b
  pub reached : ℕ
  pub in_time : is_late deadline reached ≡ false
  pub forward : floor ≤ reached
  pub rested : reached ≤ b.now

pub sleeps :
    (deadline : Option ℕ) (delay : ℕ) (o : Option ℕ) (pause : Pause) (b : Box)
    → b.now ≤ (sleep_until_next_poll deadline delay o pause b).now
unfolding sleep_until_next_poll
sleeps deadline delay o pause b = omega arith

module _ (deadline : Option ℕ) (seen : List Round) (floor : ℕ) where
  -- what a tolerated fault, or one that is raised again, says
  abbrev pub Tolerated : Error → Box → Option (Pace × Box) → Type 0
  Tolerated e b none = Why read_round IsFault deadline seen e b
  Tolerated e b (some (p, c)) = Going deadline seen floor p c

  tolerate_choice :
      (e : Error) (t : ThunderError) (pause : Pause) (p : Pace) (b : Box)
      → floor ≤ b.now
      → Streak read_round IsFault seen (or_now p.failing_since b.now) b
      → (x y : Bool) → leb outage_grace (b.now - or_now p.failing_since b.now) ≡ x
      → is_late deadline b.now ≡ y
      → Tolerated e b (
          if x
          then none
          else if y
          then none
          else some (
            record { failing_since = some (or_now p.failing_since b.now); delay = slower p.delay },
            sleep_until_next_poll deadline p.delay t.retry_after pause b,
          ))
  tolerate_choice e t pause p b f s true y g l =
      inr (inl (or_now p.failing_since b.now, s, ground arith))
  tolerate_choice e t pause p b f s false true g l = inr (inr (is_late-Late deadline b.now l))
  tolerate_choice e t pause p b f s false false g l = record {
    since =
        slept-InStreak read_round IsFault seen (or_now p.failing_since b.now) deadline p.delay
          t.retry_after pause b s;
    reached = b.now;
    in_time = l;
    forward = f;
    rested = sleeps deadline p.delay t.retry_after pause b;
  }

  pub tolerate-Tolerated :
      (e : Error) (t : ThunderError) (pause : Pause) (p : Pace) (b : Box)
      → floor ≤ b.now
      → Streak read_round IsFault seen (or_now p.failing_since b.now) b
      → Tolerated e b (tolerate deadline t pause p b)
  unfolding tolerate
  tolerate-Tolerated e t pause p b f s = tolerate_choice e t pause p b f s _ _ refl refl

  -- what the end of a round says
  abbrev pub Turned : Turn × Box → Type 0
  Turned (answers true, c) = c.status ≢ created
  Turned (answers false, c) = Late deadline c.now
  Turned (raises e, c) = Why read_round IsFault deadline seen e c
  Turned (again p, c) = Going deadline seen floor p c

  resume-Turned :
      (e : Error) (b : Box) (o : Option (Pace × Box))
      → Tolerated e b o
      → Turned (resume_after e o b)
  resume-Turned e b none h = h
  resume-Turned e b (some (p, c)) h = h

  fault-Turned :
      (e : Error) (o : Option ThunderError) (pause : Pause) (p : Pace) (b : Box)
      → transient e ≡ o
      → floor ≤ b.now
      → ((t : ThunderError)
          → o ≡ some t
          → Streak read_round IsFault seen (or_now p.failing_since b.now) b)
      → Turned (after_fault deadline e o pause p b)
  fault-Turned e none pause p b t f s = inl (none-IsTransient e t)
  fault-Turned e (some x) pause p b t f s =
      resume-Turned e b (tolerate deadline x pause p b)
        (tolerate-Tolerated e x pause p b f (s x refl))

  late-Turned :
      (x : Bool) (b : Box) (m : Turn × Box)
      → is_late deadline b.now ≡ x
      → (x ≡ false → Turned m)
      → Turned (if◌then◌else◌ {A = Turn × Box} x (answers false, b) m)
  late-Turned true b m l k = is_late-Late deadline b.now l
  late-Turned false b m l k = k refl

  left-Turned :
      (x : Bool) (b : Box) (m : Turn × Box)
      → is_created b.status ≡ x
      → Turned m
      → Turned (if◌then◌else◌ {A = Turn × Box} (not x) (answers true, b) m)
  left-Turned true b m c k = k
  left-Turned false b m c k = λ q. true≢false (sym (ap is_created q) ∙ c)

  either-Turned :
      (x : Bool) (m n : Turn × Box)
      → Turned m
      → (x ≡ false → Turned n)
      → Turned (if◌then◌else◌ {A = Turn × Box} x m n)
  either-Turned true m n h k = h
  either-Turned false m n h k = k refl

  pub read-Turned :
      (pause : Pause) (p : Pace) (r : Result (Unit {0}) × Box)
      → floor ≤ r.1.now
      → ((e : Error)
          → r.0 ≡ err e
          → IsFault e
          → Streak read_round IsFault seen (or_now p.failing_since r.1.now) r.1)
      → Turned (after_read deadline pause p r)
  unfolding after_read
  read-Turned pause p (ok u, b) f s = left-Turned (is_created b.status) b _ refl (
      late-Turned (is_late deadline b.now) b _ refl λ l. record {
        since = tt;
        reached = b.now;
        in_time = l;
        forward = f;
        rested = sleeps deadline p.delay none pause b;
      })
  read-Turned pause p (err e, b) f s =
      either-Turned (is_elapsed e) _ _
        (late-Turned (is_late deadline b.now) b _ refl λ l. record {
          since = tt;
          reached = b.now;
          in_time = l;
          forward = f;
          rested = omega arith;
        })
        (λ x.
          fault-Turned e (transient e) pause p b refl f
            (λ t q. s e refl (x, transient-IsTransient e t q)))
