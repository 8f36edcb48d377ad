-- ===== src/Ssh/Retry/Ends.antt =====
-- What each way in which a call of `run` ends says of the attempts.
use thunder_sandbox.Prelude.{
  ℕ, ◌+◌, ◌-◌, ◌≤◌, ◌≡◌, ◌⊎◌, inl, inr, refl, sym, subst, ◌∙◌, true, false, Option, none, some,
  List, [], ◌∷◌, arith, Bool-cases, leb,
}
use thunder_sandbox.Ssh.Manager.{SshError, is_transient, Manager, Reply, returned, raised, get}
use thunder_sandbox.Ssh.Retry.{
  retry_budget, Round, Loop, Outcome, success, failure, exhausted, late, running, attempt,
  attempt_with, discard_used, charge, is_late, back_off, settle, round, then_next, run_from, run,
}
use thunder_sandbox.Ssh.Retry.Causes.{Continued, round_running}

-- some attempt's operation returned the value
abbrev pub Answers : {A : Type 0} → A → List (Round A) → Type 0
Answers a [] = ⊥
Answers a (r ∷ rs) = ((c : ℕ) × (r.operation c ≡ returned a)) ⊎ Answers a rs

abbrev pub Explained : {A : Type 0} → Option ℕ → ℕ → List (Round A) → Outcome A → Type 0
Explained deadline start rs (success a m) = Answers a rs
Explained deadline start rs (failure e m) = is_transient e ≡ false
Explained deadline start rs (exhausted t m) = start + retry_budget ≤ t
Explained deadline start rs (late t m) = (d : ℕ) × (deadline ≡ some d) × (d ≤ t)
Explained deadline start rs (running l) = Unit

abbrev AfterStart : ℕ → Option ℕ → Type 0
AfterStart start none = Unit
AfterStart start (some s) = start ≤ s

record IsUnderWay (start : ℕ) (l : Loop) : Type 0 where
  begun : start ≤ l.now
  failing : AfterStart start l.failing_since

module _ (start : ℕ) where
  charge-AfterStart :
      (o : Option ℕ) (started now : ℕ)
      → AfterStart start o
      → start ≤ now
      → AfterStart start (charge o started now)
  unfolding charge
  charge-AfterStart none started now h k = k
  charge-AfterStart (some s) started now h k =
      elim (Bool-cases (leb retry_budget (now - started))) [
        | inl e ↦ rw e k
        | inr e ↦
            rw e
              (elim (Bool-cases (leb retry_budget (now - s))) [ inl f ↦ rw f tt | inr f ↦ rw f h ])
      ]

  spent_after :
      (o : Option ℕ) (started now : ℕ)
      → AfterStart start o
      → charge o started now ≡ none
      → start + retry_budget ≤ now
  unfolding charge
  spent_after none started now h e = ground arith
  spent_after (some s) started now h e = ground arith

passed :
    (deadline : Option ℕ) (now : ℕ)
    → is_late deadline now ≡ true
    → (d : ℕ) × (deadline ≡ some d) × (d ≤ now)
passed none now h = absurd (cc)
passed (some d) now h = (d, refl, ground arith)

raised≢returned {ℓ} : {A : Type ℓ} {e : SshError} {a : A} → raised e ≡ returned a → ⊥
raised≢returned h = cc

module _ {A : Type 0} (deadline : Option ℕ) (start : ℕ) where
  weaken :
      (r : Round A) (rs : List (Round A)) (o : Outcome A)
      → Explained deadline start rs o
      → Explained deadline start (r ∷ rs) o
  weaken r rs (success a m) h = inr h
  weaken r rs (failure e m) h = h
  weaken r rs (exhausted t m) h = h
  weaken r rs (late t m) h = h
  weaken r rs (running l) h = h

  module _ (r : Round A) (rs : List (Round A)) (l : Loop) (under_way : IsUnderWay start l) where
    back_off_ends :
        (m : Manager) (o : Option ℕ)
        → charge l.failing_since l.now (l.now + r.duration) ≡ o
        → Explained deadline start (r ∷ rs) (back_off deadline r (l.now + r.duration) l.delay o m)
    unfolding back_off
    back_off_ends m none e =
        spent_after start l.failing_since l.now (l.now + r.duration) under_way.failing e
    back_off_ends m (some s) e = elim (Bool-cases (is_late deadline (l.now + r.duration))) [
      | inl x ↦ rw x (passed deadline (l.now + r.duration) x)
      | inr x ↦ rw x tt
    ]

    settle_ends :
        (used : Option ℕ) (reply : Reply A) (m : Manager)
        → ((a : A) → reply ≡ returned a → (c : ℕ) × (r.operation c ≡ returned a))
        → Explained deadline start (r ∷ rs) (settle deadline r l (used, reply, m))
    unfolding settle
    settle_ends used (returned a) m answered = inl (answered a refl)
    settle_ends used (raised e) m answered = elim (Bool-cases (is_transient e)) [
      | inl x ↦ rw x (
          back_off_ends (discard_used used m) (charge l.failing_since l.now (l.now + r.duration))
            refl)
      | inr x ↦ rw x x
    ]

    attempt_ends :
        (got : Reply ℕ × Manager)
        → Explained deadline start (r ∷ rs) (settle deadline r l (attempt_with r got))
    attempt_ends (returned c, m) = settle_ends (some c) (r.operation c) m (λ a e. (c, e))
    attempt_ends (raised e, m) = settle_ends none (raised e) m (λ a h. absurd (raised≢returned h))

    round_ends : Explained deadline start (r ∷ rs) (round deadline r l)
    unfolding round attempt
    round_ends = attempt_ends (get r.is_closed r.refusal l.manager)

  goes_on :
      (r : Round A) (l l' : Loop)
      → IsUnderWay start l
      → Continued deadline r l l'
      → IsUnderWay start l'
  goes_on r l l' h c = record {
    begun = rw (c.later) (omega (arith, h.begun));
    failing = subst (AfterStart start) (c.charged ∙ sym c.failing) (
        charge-AfterStart start l.failing_since l.now (l.now + r.duration) h.failing
          (omega (arith, h.begun)));
  }

  next_ends :
      (r : Round A) (rs : List (Round A)) (o : Outcome A)
      → Explained deadline start (r ∷ rs) o
      → ((l' : Loop) → o ≡ running l' → Explained deadline start rs (run_from deadline rs l'))
      → Explained deadline start (r ∷ rs) (then_next o (run_from deadline rs))
  next_ends r rs (success a m) h k = h
  next_ends r rs (failure e m) h k = h
  next_ends r rs (exhausted t m) h k = h
  next_ends r rs (late t m) h k = h
  next_ends r rs (running l) h k = weaken r rs (run_from deadline rs l) (k l refl)

  loop_ends :
      (rs : List (Round A)) (l : Loop)
      → IsUnderWay start l
      → Explained deadline start rs (run_from deadline rs l)
  unfolding run_from
  loop_ends [] l h = tt
  loop_ends (r ∷ rs) l h =
      next_ends r rs (round deadline r l) (round_ends r rs l h)
        λ l' e. loop_ends rs l' (goes_on r l l' h (round_running deadline r l e))

-- How `run` ends says why: a value is what one of the operations returned; an exception that is
-- passed on is not transient; the budget is spent only when `run` began at least the budget ago;
-- the deadline is reported only once it has passed.
pub run-Explained :
    {A : Type 0} (deadline : Option ℕ) (rs : List (Round A)) (m : Manager) (now : ℕ)
    → Explained deadline now rs (run deadline rs m now)
unfolding run
run-Explained deadline rs m now =
    loop_ends deadline now rs _ (record { begun = omega arith; failing = tt })
