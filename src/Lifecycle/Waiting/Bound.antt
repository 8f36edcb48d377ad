-- ===== src/Lifecycle/Waiting/Bound.antt =====
-- Waiting for the end of a sandbox ends, if it has a timeout.
use thunder_sandbox.Prelude.{
  ℕ, ◌+◌, ◌≤◌, ◌<◌, ◌≡◌, ◌≢◌, ◌⊎◌, inl, inr, refl, sym, subst, Bool, true, false, Option, none,
  some, List, [], ◌∷◌, arith, length, All, if◌then◌else◌,
}
use thunder_sandbox.Common.Errors.{ErrorKind, thunder_error, plain, Result, ok, err}
use thunder_sandbox.Common.Task.{Ran, threw, waiting, Task}
use thunder_sandbox.Lifecycle.Box.{Box, refresh}
use thunder_sandbox.Lifecycle.Poll.{Pause, Pace, fresh_pace, is_late}
use thunder_sandbox.Lifecycle.Startup.Rounds.{sleeps}
use thunder_sandbox.Lifecycle.Startup.Ends.{refresh_now}
use thunder_sandbox.Lifecycle.Waiting.{
  Read, fresh, fault, gives_up, read_of, refresh_while_waiting, WaitRound, exit_code, at_status,
  after_refresh, poll_end, wait_for_end,
}

-- every request takes a millisecond at least
abbrev pub TakesTime : WaitRound → Type 0
TakesTime r = 1 ≤ r.request.took

abbrev Waits : Ran ℕ × Box → Type 0
Waits (waiting, b) = Unit
Waits _ = ⊥

Waits-of : (p : Ran ℕ × Box) (b : Box) → p ≡ (waiting, b) → Waits p
Waits-of p b e = subst Waits (sym e) tt

module _ (d : ℕ) (P : Type 0) where
  -- what is known of a round that is followed by another
  abbrev Next : ℕ → (Pace → Task Box ℕ) → Type 0
  Next floor k = (p : Pace) (c : Box) → floor < d → floor ≤ c.now → Waits (k p c) → P

  timed_next :
      (x : Bool) (b : Box) (m : Ran ℕ × Box)
      → is_late (some d) b.now ≡ x
      → Waits (
          if◌then◌else◌ {A = Ran ℕ × Box} x
            (threw (thunder_error (plain ErrorKind.sandbox_timeout)), b)
            m)
      → (b.now < d → Waits m → P)
      → P
  timed_next true b m l w f = absurd w
  timed_next false b m l w f = f (ground arith) w

  status_next :
      (pause : Pause) (delay : ℕ) (o : Option ℕ) (b : Box) (k : Pace → Task Box ℕ)
      → Waits (at_status (some d) pause delay o b k)
      → Next b.now k
      → P
  status_next pause delay (some code) b k w f = absurd w
  status_next pause delay none b k w f =
      timed_next (is_late (some d) b.now) b _ refl w
        λ before v. f _ _ before (sleeps (some d) delay none pause b) v

  refreshed_next :
      (pause : Pause) (delay : ℕ) (r : Read × Box) (k : Pace → Task Box ℕ)
      → Waits (after_refresh (some d) pause delay r k)
      → Next r.1.now k
      → P
  refreshed_next pause delay (fresh, b) k w f = status_next pause delay (exit_code b.status) b k w f
  refreshed_next pause delay (fault since hint, b) k w f =
      timed_next (is_late (some d) b.now) b _ refl w
        λ before v. f _ _ before (sleeps (some d) delay hint pause b) v
  refreshed_next pause delay (gives_up e, b) k w f = absurd w

read_of_now :
    (deadline failing : Option ℕ) (r : Result (Unit {0}) × Box)
    → (read_of deadline failing r).1.now ≡ r.1.now
read_of_now deadline failing (ok u, b) = refl
read_of_now deadline failing (err e, b) = refl

rounds_left :
    (d : ℕ) (rs : List WaitRound) (p : Pace) (b : Box)
    → All TakesTime rs
    → Waits (poll_end (some d) rs p b)
    → (length rs ≡ 0) ⊎ (b.now + length rs ≤ d)
unfolding poll_end refresh_while_waiting
rounds_left d [] p b t w = inl refl
rounds_left d (r ∷ rs) p b t w =
    let rest = rounds_left d rs in
    refreshed_next d _ r.pause p.delay (read_of (some d) p.failing_since (refresh r.request b))
      (poll_end (some d) rs) w
      λ q c before forward v.
        let now = read_of_now (some d) p.failing_since (refresh r.request b) in
        elim (rest q c t.1 v) [
          | inl e ↦ inr (omega (arith, e, before, now, refresh_now r.request b, t.0))
          | inr e ↦ inr (omega (arith, e, forward, now, refresh_now r.request b, t.0))
        ]

-- With a timeout, and if each request takes a millisecond at least, `wait` ends: one round for each
-- millisecond that is left, and one more, are enough, whatever the API answers.
pub wait_for_end_ends :
    (d : ℕ) (rs : List WaitRound) (b c : Box)
    → All TakesTime rs
    → d < b.now + length rs
    → 0 < length rs
    → wait_for_end (some d) rs b ≢ (waiting, c)
unfolding wait_for_end
wait_for_end_ends d rs b c takes many some_rounds e =
    elim (rounds_left d rs fresh_pace b takes (Waits-of _ c e)) [
      | inl x ↦ omega (arith, x, some_rounds)
      | inr x ↦ omega (arith, x, many)
    ]
