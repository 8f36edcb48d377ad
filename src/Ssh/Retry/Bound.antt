-- ===== src/Ssh/Retry/Bound.antt =====
-- The retries end.
use thunder_sandbox.Prelude.{
  ℕ, zero, suc, ◌+◌, ◌-◌, ◌*◌, ◌≤◌, ◌<◌, ◌≡◌, ◌≢◌, ◌⊎◌, inl, inr, refl, ap, false, Option, none,
  some, List, [], ◌∷◌, min, arith, length, All,
}
use thunder_sandbox.Ssh.Manager.{Manager}
use thunder_sandbox.Ssh.Retry.{
  retry_initial, retry_max, retry_budget, Round, Loop, Outcome, running, charge, is_late, cut_pause,
  jitter_high, round, then_next, run_from, run,
}
use thunder_sandbox.Ssh.Retry.Causes.{Continued, round_running}

-- the delay after `k` failures, without jitter
abbrev pub delay_at : ℕ → ℕ
delay_at zero = 250
delay_at (suc zero) = 500
delay_at (suc (suc zero)) = 1000
delay_at (suc (suc (suc zero))) = 2000
delay_at (suc (suc (suc (suc zero)))) = 4000
delay_at _ = 5000

-- the least time that `k` pauses take
abbrev pub slept : ℕ → ℕ
slept zero = 0
slept (suc k) = slept k + delay_at k

delay_doubles : (k : ℕ) → min retry_max (delay_at k * 2) ≡ delay_at (suc k)
delay_doubles zero = refl
delay_doubles (suc zero) = refl
delay_doubles (suc (suc zero)) = refl
delay_doubles (suc (suc (suc zero))) = refl
delay_doubles (suc (suc (suc (suc zero)))) = refl
delay_doubles (suc (suc (suc (suc (suc k))))) = refl

slept_enough : (k : ℕ) → 5000 * k ≤ slept k + 17250
slept_enough zero = omega arith
slept_enough (suc zero) = omega arith
slept_enough (suc (suc zero)) = omega arith
slept_enough (suc (suc (suc zero))) = omega arith
slept_enough (suc (suc (suc (suc zero)))) = omega arith
slept_enough (suc (suc (suc (suc (suc zero))))) = omega arith
slept_enough (suc (suc (suc (suc (suc (suc k)))))) =
    omega (arith, slept_enough (suc (suc (suc (suc (suc k))))))

abbrev HasPassed : Option ℕ → ℕ → Type 0
HasPassed none now = ⊥
HasPassed (some d) now = d ≤ now

-- The loop after `k + 1` failures: the pauses so far were as long as they had to be, unless the
-- deadline has passed.
record Failing (deadline : Option ℕ) (k : ℕ) (l : Loop) : Type 0 where
  slow : l.delay ≡ delay_at (suc k)
  since : ℕ
  failing : l.failing_since ≡ some since
  spent : slept k < retry_budget
  rested : (since + slept (suc k) ≤ l.now) ⊎ HasPassed deadline l.now

abbrev pub IsShort {ℓ} : {A : Type ℓ} → Round A → Type 0
IsShort r = r.duration < retry_budget

rest_or_deadline :
    (deadline : Option ℕ) (now pause more : ℕ)
    → (now + pause ≤ now + cut_pause deadline now pause + more)
      ⊎ HasPassed deadline (now + cut_pause deadline now pause + more)
rest_or_deadline none now pause more = inl (omega arith)
rest_or_deadline (some d) now pause more = grind arith

first_charge : (started now : ℕ) {x : ℕ} → charge none started now ≡ some x → x ≡ now
unfolding charge
first_charge started now h = ground arith

next_charge :
    (since started now : ℕ) {x : ℕ}
    → now - started < retry_budget
    → charge (some since) started now ≡ some x
    → (x ≡ since) × (now - since < retry_budget)
unfolding charge
next_charge since started now short h = ground arith

not_passed :
    (deadline : Option ℕ) (before now : ℕ)
    → before ≤ now
    → is_late deadline now ≡ false
    → HasPassed deadline before
    → ⊥
not_passed none before now le h p = p
not_passed (some d) before now le h p = ground arith

module _ {ℓ} {A : Type ℓ} (deadline : Option ℕ) (r : Round A) (l l' : Loop) where
  rested_more :
      (since n : ℕ)
      → Continued deadline r l l'
      → since + n ≤ l.now + r.duration + l.delay
      → (since + n ≤ l'.now) ⊎ HasPassed deadline l'.now
  rested_more since n c h =
      let failed_at : ℕ = l.now + r.duration in
      let pause : ℕ = l.delay + r.jitter (jitter_high l.delay) in
      rw (c.later) (either _ _ (rest_or_deadline deadline failed_at pause r.oversleep))
    where
      either :
          (P : Type 0) (later : ℕ)
          → (l.now + r.duration + (l.delay + r.jitter (jitter_high l.delay)) ≤ later) ⊎ P
          → (since + n ≤ later) ⊎ P
      either P later (inl x) = inl (omega (arith, x, h))
      either P later (inr x) = inr x

  first_failure :
      l.delay ≡ retry_initial
      → l.failing_since ≡ none
      → Continued deadline r l l'
      → Failing deadline 0 l'
  first_failure e f c =
      let now : c.since ≡ l.now + r.duration =
        first_charge l.now (l.now + r.duration) (rw f at c.charged) in
      record {
        slow = rw (c.slower, e);
        since = c.since;
        failing = c.failing;
        spent = omega arith;
        rested = rested_more c.since 250 c (omega arith);
      }

  next_failure :
      (k : ℕ)
      → IsShort r
      → Failing deadline k l
      → Continued deadline r l l'
      → Failing deadline (suc k) l'
  next_failure k short h c =
      let on_time : h.since + slept (suc k) ≤ l.now = elim h.rested [
        | inl x ↦ x
        | inr p ↦ absurd (not_passed deadline l.now (l.now + r.duration) (omega arith) c.in_time p)
      ] in
      let charged =
        next_charge h.since l.now (l.now + r.duration) (omega arith) (rw h.failing at c.charged) in
      record {
        slow = rw (c.slower, h.slow) (delay_doubles (suc k));
        since = h.since;
        failing = rw (c.failing) (ap some charged.0);
        spent = omega arith;
        rested = rested_more h.since (slept (suc (suc k))) c (omega arith);
      }

then_running {ℓ} :
    {A : Type ℓ} (o : Outcome A) (k : Loop → Outcome A) {l' : Loop}
    → then_next o k ≡ running l'
    → (l : Loop) × (o ≡ running l) × (k l ≡ running l')
then_running (running l) k h = (l, refl, h)
then_running (Outcome.success a m) k h = ground arith
then_running (Outcome.failure e m) k h = ground arith
then_running (Outcome.exhausted t m) k h = ground arith
then_running (Outcome.late t m) k h = ground arith

module _ {ℓ} {A : Type ℓ} (deadline : Option ℕ) where
  Failing-rounds :
      (k : ℕ) (rs : List (Round A)) (l l' : Loop)
      → All IsShort rs
      → Failing deadline k l
      → run_from deadline rs l ≡ running l'
      → 5000 * (k + length rs) < retry_budget + 17250
  unfolding run_from
  Failing-rounds k [] l l' short h e = omega (arith, slept_enough k, h.spent)
  Failing-rounds k (r ∷ rs) l l' short h e =
      let (next, once, more) = then_running (round deadline r l) (run_from deadline rs) e in
      let again = next_failure deadline r l next k short.0 h (round_running deadline r l once) in
      omega (arith, Failing-rounds (suc k) rs next l' short.1 again more)

  -- If each attempt takes less than the retry budget, `run` ends within 125 attempts: whatever
  -- the attempts come to and whatever the deadline, no more than 124 are followed by another.
  pub run_ends :
      (rs : List (Round A)) (m : Manager) (now : ℕ)
      → All IsShort rs
      → 124 < length rs
      → (l : Loop) → run deadline rs m now ≢ running l
  unfolding run run_from
  run_ends [] m now short many l e = absurd (omega arith)
  run_ends (r ∷ rs) m now short many l e =
      let start : Loop = record {
        manager = m;
        now = now;
        delay = retry_initial;
        failing_since = none;
      } in
      let (next, once, more) = then_running (round deadline r start) (run_from deadline rs) e in
      let first =
        first_failure deadline r start next refl refl (round_running deadline r start once) in
      omega (arith, Failing-rounds 0 rs next l short.1 first more)
