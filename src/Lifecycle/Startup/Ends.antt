-- ===== src/Lifecycle/Startup/Ends.antt =====
-- How waiting for a sandbox to start ends.
use thunder_sandbox.Prelude.{
  ap, ℕ, ◌+◌, ◌≤◌, ◌<◌, ◌≡◌, ◌≢◌, ◌⊎◌, inl, inr, refl, sym, subst, Bool, true, false, Option, some,
  List, [], ◌∷◌, Bool-cases, arith, length, All, if◌then◌else◌,
}
use thunder_sandbox.Common.Errors.{Result, ok, err}
use thunder_sandbox.Common.Task.{Ran, done, threw, waiting, Task}
use thunder_sandbox.Lifecycle.Box.{
  created, SandboxStatus, Box, Request, later, update, is_not_found, forget_endpoint, fall_back,
  refresh, read_startup_state,
}
use thunder_sandbox.Lifecycle.Poll.{Pace, fresh_pace}
use thunder_sandbox.Lifecycle.Startup.{
  Round, Turn, answers, raises, again, startup_round, follow, poll_startup, wait_for_startup,
}
use thunder_sandbox.Lifecycle.Startup.Rounds.{IsFault, read_round, Turned, read-Turned}
use thunder_sandbox.Lifecycle.Streak.{Late, InStreak, Explains, extend-Streak}

update_now : (r : Result SandboxStatus) (b : Box) → (update r b).1.now ≡ b.now
update_now (ok s) b = refl
update_now (err e) b = refl

pub refresh_now : (q : Request SandboxStatus) (b : Box) → (refresh q b).1.now ≡ b.now + q.took
unfolding refresh
refresh_now q b = update_now q.reply (later q.took b)

forget_now : (r : Result (Unit {0}) × Box) → (forget_endpoint r).1.now ≡ r.1.now
forget_now (ok u, b) = refl
forget_now (err e, b) = refl

fall_back_now :
    (read : Request SandboxStatus) (r : Result (Unit {0}) × Box)
    → r.1.now ≤ (fall_back read r).1.now
fall_back_now read (ok u, b) = omega arith
fall_back_now read (err e, b) = elim (Bool-cases (is_not_found e)) [
  | inl x ↦ rw x (omega (arith, forget_now (refresh read b), refresh_now read b))
  | inr x ↦ rw x (omega arith)
]

-- a round takes as long as its shortest request at least
read_now :
    (n : ℕ) (wait read : Request SandboxStatus) (b : Box)
    → n ≤ wait.took
    → n ≤ read.took
    → b.now + n ≤ (read_startup_state wait read b).1.now
unfolding read_startup_state
read_now n wait read b h k =
    either_now b.wait_available (fall_back read (refresh wait b)) (refresh read b)
      (omega (arith, h, fall_back_now read (refresh wait b), refresh_now wait b))
      (omega (arith, k, refresh_now read b))
  where
    either_now :
        (x : Bool) (m o : Result (Unit {0}) × Box)
        → b.now + n ≤ m.1.now
        → b.now + n ≤ o.1.now
        → b.now + n ≤ (if◌then◌else◌ {A = Result (Unit {0}) × Box} x m o).1.now
    either_now true m o f g = f
    either_now false m o f g = g

-- How a call ends says why: it returns `True` when the sandbox has left `created`, `False` when the
-- deadline has passed, and it raises what is no transient fault, or a fault after a streak of faults for
-- the grace period, or after the deadline.
abbrev pub Explained : Option ℕ → List Round → Ran Bool × Box → Type 0
Explained deadline all (done true, b) = b.status ≢ created
Explained deadline all (done false, b) = Late deadline b.now
Explained deadline all (threw e, b) = Explains read_round IsFault deadline all e b
Explained deadline all (waiting, b) = Unit

round-Turned :
    (deadline : Option ℕ) (seen : List Round) (n : ℕ) (r : Round) (p : Pace) (b : Box)
    → n ≤ r.wait.took
    → n ≤ r.read.took
    → InStreak read_round IsFault seen p.failing_since b
    → Turned deadline (r ∷ seen) (b.now + n) (startup_round deadline r p b)
unfolding startup_round
round-Turned deadline seen n r p b h k s =
    read-Turned deadline (r ∷ seen) (b.now + n) r.pause p (read_round r b)
      (read_now n r.wait r.read b h k)
      (λ e q f.
        extend-Streak read_round IsFault r seen p.failing_since b (read_round r b).1 e s
          (ap (λ x. (x, (read_round r b).1)) q) f)

-- every request takes a millisecond at least
abbrev pub TakesTime : Round → Type 0
TakesTime r = (1 ≤ r.wait.took) × (1 ≤ r.read.took)

abbrev Waits : Ran Bool × Box → Type 0
Waits (waiting, b) = Unit
Waits _ = ⊥

module _ (d : ℕ) where
  -- what is known of a round that is followed by another
  goes_on :
      {P : Type 0} (seen : List Round) (floor : ℕ) (t : Turn × Box) (k : Pace → Task Box Bool)
      → Turned (some d) seen floor t
      → Waits (follow t k)
      → ((q : Pace) (c : Box)
          → InStreak read_round IsFault seen q.failing_since c
          → floor < d
          → floor ≤ c.now
          → Waits (k q c)
          → P)
      → P
  goes_on seen floor (again q, c) k h w f =
      let below : h.reached < d = ground (arith, h.in_time) in
      f q c h.since (omega (arith, below, h.forward)) (omega (arith, h.forward, h.rested)) w
  goes_on seen floor (answers x, c) k h w f = absurd w
  goes_on seen floor (raises e, c) k h w f = absurd w

  rounds_left :
      (seen rs : List Round) (p : Pace) (b : Box)
      → All TakesTime rs
      → InStreak read_round IsFault seen p.failing_since b
      → Waits (poll_startup (some d) rs p b)
      → (length rs ≡ 0) ⊎ (b.now + length rs ≤ d)
  unfolding poll_startup
  rounds_left seen [] p b t f w = inl refl
  rounds_left seen (r ∷ rs) p b t f w =
      let rest = rounds_left (r ∷ seen) rs in
      goes_on (r ∷ seen) (b.now + 1) (startup_round (some d) r p b) (poll_startup (some d) rs)
        (round-Turned (some d) seen 1 r p b t.0.0 t.0.1 f) w
        λ q c since before forward v. elim (rest q c t.1 since v) [
          | inl e ↦ inr (omega (arith, e, before))
          | inr e ↦ inr (omega (arith, e, forward))
        ]

Waits-of : (p : Ran Bool × Box) (b : Box) → p ≡ (waiting, b) → Waits p
Waits-of p b e = subst Waits (sym e) tt

-- With a deadline, and if each request takes a millisecond at least, `_wait_for_startup` ends: one
-- round for each millisecond that is left, and one more, are enough, whatever the API answers.
pub wait_for_startup_ends :
    (d : ℕ) (rs : List Round) (b c : Box)
    → All TakesTime rs
    → d < b.now + length rs
    → 0 < length rs
    → wait_for_startup (some d) rs b ≢ (waiting, c)
unfolding wait_for_startup
wait_for_startup_ends d rs b c takes many some_rounds e =
    elim (rounds_left d [] rs fresh_pace b takes tt (Waits-of _ c e)) [
      | inl x ↦ omega (arith, x, some_rounds)
      | inr x ↦ omega (arith, x, many)
    ]
