-- ===== src/Lifecycle/Streak.antt =====
-- Faults without a break, in a loop that polls the API (thunder_sandbox/asynchronous/sandbox.py).
use thunder_sandbox.Prelude.{
  ℕ, ◌+◌, ◌≤◌, ◌≡◌, ◌⊎◌, refl, subst, true, Option, none, some, List, [], ◌∷◌, arith,
}
use thunder_sandbox.Common.Errors.{Error, Result, err}
use thunder_sandbox.Lifecycle.Poll.Transience.{IsTransient}
use thunder_sandbox.Lifecycle.Box.{Box, later}
use thunder_sandbox.Lifecycle.Poll.{is_late, or_now, Pause, sleep_until_next_poll}

abbrev pub Late : Option ℕ → ℕ → Type 0
Late none now = ⊥
Late (some d) now = d ≤ now

pub is_late-Late : (deadline : Option ℕ) (now : ℕ) → is_late deadline now ≡ true → Late deadline now
is_late-Late none now h = absurd (cc)
is_late-Late (some d) now h = ground arith

-- the rounds `seen`, of which the first was the last, and then `rest`
abbrev pub rounds {ℓ} : {R : Type ℓ} → List R → List R → List R
rounds [] rest = rest
rounds (r ∷ seen) rest = rounds seen (r ∷ rest)

-- A round `r` reads the status by `read r`, and `Fault` is said of the exceptions that may be waited out.
module _ {R : Type 0} (read : R → Box → Result (Unit {0}) × Box) (Fault : Error → Type 0) where
  -- The last rounds of `seen` have met faults without a break, the first at the time `since` and the last
  -- in the box. Between two of them time passes, and nothing else happens.
  pub data Streak : List R → ℕ → Box → Type 0 where
    first :
        (r : R) (seen : List R) (b c : Box) (e : Error)
        → read r b ≡ (err e, c)
        → Fault e
        → Streak (r ∷ seen) c.now c
    more :
        (r : R) (seen : List R) (since pause : ℕ) (b c : Box) (e : Error)
        → Streak seen since b
        → read r (later pause b) ≡ (err e, c)
        → Fault e
        → Streak (r ∷ seen) since c

  -- since when there have been faults before a round, if the last round met one
  abbrev pub InStreak : List R → Option ℕ → Box → Type 0
  InStreak seen none b = Unit
  InStreak seen (some since) b = (c : Box) × (pause : ℕ) × Streak seen since c × (b ≡ later pause c)

  pub extend-Streak :
      (r : R) (seen : List R) (failing : Option ℕ) (b c : Box) (e : Error)
      → InStreak seen failing b
      → read r b ≡ (err e, c)
      → Fault e
      → Streak (r ∷ seen) (or_now failing c.now) c
  extend-Streak r seen none b c e s q f = Streak.first r seen b c e q f
  extend-Streak r seen (some since) b c e (d, pause, s, same) q f =
      Streak.more r seen since pause d c e s (subst (λ x. read r x ≡ (err e, c)) same q) f

  pub slept-InStreak :
      (seen : List R) (since : ℕ) (deadline : Option ℕ) (delay : ℕ) (o : Option ℕ) (p : Pause)
      (b : Box)
      → Streak seen since b
      → InStreak seen (some since) (sleep_until_next_poll deadline delay o p b)
  unfolding sleep_until_next_poll
  slept-InStreak seen since deadline delay o p b s = (b, _, s, refl)

  -- Why an exception ends the loop: it is no transient fault, faults have gone on for the grace
  -- period of 30 seconds,
  -- or the deadline has passed.
  abbrev pub Why : Option ℕ → List R → Error → Box → Type 0
  Why deadline seen e b =
      (IsTransient e → ⊥)
      ⊎ (((since : ℕ) × Streak seen since b × (since + 30000 ≤ b.now)) ⊎ Late deadline b.now)

  -- the same, in the last of some of the rounds `all`
  abbrev pub Explains : Option ℕ → List R → Error → Box → Type 0
  Explains deadline all e b =
      (seen rest : List R) × (rounds seen rest ≡ all) × Why deadline seen e b
