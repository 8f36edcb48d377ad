-- ===== src/Process/Monotone.antt =====
-- What a handle has seen of its job never moves backward.
use thunder_sandbox.Prelude.{
  ◌≤◌, ◌≡◌, ◌⊎◌, inl, inr, refl, sym, subst, ◌∙◌, true, false, Option, none, some, arith,
  Bool-cases,
}
use thunder_sandbox.Common.Errors.{Result, ok, err}
use thunder_sandbox.Common.Task.{Task, pure, ◌>>=◌}
use thunder_sandbox.Common.Task.Moves.{IsPreorder, Moves, Moves-pure, resumed}
use thunder_sandbox.Jobs.State.{
  terminal, stage, state_eq, state_eq→eq, can_transition, can_transition_iff,
}
use thunder_sandbox.Jobs.Status.{JobStatus}
use thunder_sandbox.Process.Handle.{
  Handle, is_terminal, moves_backward, record_status, unless_terminal, read_and_record,
  refresh_status, accept_status,
}

-- A final observation stays; any other is followed by one of the same or of a later stage.
abbrev pub Follows : Option JobStatus → Option JobStatus → Type 0
Follows none o = Unit
Follows (some s) none = ⊥
Follows (some s) (some t) = (t ≡ s) ⊎ ((terminal s.state ≡ false) × (stage s.state ≤ stage t.state))

pub record Advances (h k : Handle) : Type 0 where
  pub status : Follows h.status k.status

pub Follows-same : (o : Option JobStatus) → Follows o o
Follows-same none = tt
Follows-same (some s) = inl refl

Follows-chain : (o p q : Option JobStatus) → Follows o p → Follows p q → Follows o q
Follows-chain none p q h k = tt
Follows-chain (some s) none q h k = absurd h
Follows-chain (some s) (some t) none h k = absurd k
Follows-chain (some s) (some t) (some u) (inl e) (inl f) = inl (f ∙ e)
Follows-chain (some s) (some t) (some u) (inl e) (inr f) =
    inr
      (subst (λ (x : JobStatus). (terminal x.state ≡ false) × (stage x.state ≤ stage u.state)) e f)
Follows-chain (some s) (some t) (some u) (inr e) (inl f) = inr (
    subst (λ (x : JobStatus). (terminal s.state ≡ false) × (stage s.state ≤ stage x.state)) (sym f)
      e)
Follows-chain (some s) (some t) (some u) (inr e) (inr f) = inr (e.0, omega (arith, e.1, f.1))

pub Advances-order : IsPreorder Advances
Advances-order = record {
  same = λ s. record { status = Follows-same s.status };
  chain =
      λ s t u h k. record { status = Follows-chain s.status t.status u.status h.status k.status };
}

forward : (s t : JobStatus) → moves_backward (some s) t ≡ false → stage s.state ≤ stage t.state
forward s t h = elim (Bool-cases (state_eq t.state s.state)) [
  | inl e ↦ let same : t.state ≡ s.state = state_eq→eq t.state s.state e in rw same (omega arith)
  | inr e ↦
      let allowed : can_transition s.state t.state ≡ true = ground arith in
      omega (arith, (can_transition_iff s.state t.state).0 allowed)
]

recorded :
    (h : Handle) (o : Option JobStatus) (following : JobStatus)
    → h.status ≡ o
    → is_terminal o ≡ false
    → Follows o (record_status o following h).1.status
unfolding record_status
recorded h none following e live = tt
recorded h (some s) following e live = elim (Bool-cases (moves_backward (some s) following)) [
  | inl b ↦ rw (b, e) (Follows-same (some s))
  | inr b ↦ rw b (inr (live, forward s following b))
]

record-Advances :
    (h : Handle) (following : JobStatus)
    → is_terminal h.status ≡ false
    → Advances h (record_status h.status following h).1
record-Advances h following live = record { status = recorded h h.status following refl live }

unless-Advances :
    (o : Option JobStatus) (k : Task Handle JobStatus) (h : Handle)
    → (is_terminal o ≡ false → Advances h (k h).1)
    → Advances h (unless_terminal o k h).1
unless-Advances none k h f = f refl
unless-Advances (some s) k h f = elim (Bool-cases (terminal s.state)) [
  | inl e ↦ rw e (Advances-order.same h)
  | inr e ↦ rw e (f e)
]

pub accept-Advances : (following : JobStatus) → Moves Advances (accept_status following)
unfolding accept_status ◌>>=◌
accept-Advances following = record {
  at = λ h. unless-Advances h.status _ h λ live.
      resumed Advances-order h (record_status h.status following h) (λ _. pure following)
        (record-Advances h following live) (λ _. Moves-pure Advances-order following);
}

read-Advances :
    (reply : Result JobStatus) (h : Handle)
    → is_terminal h.status ≡ false
    → Advances h (read_and_record h.status reply h).1
unfolding read_and_record ◌>>=◌
read-Advances (err e) h live = Advances-order.same h
read-Advances (ok following) h live =
    resumed Advances-order h (record_status h.status following h) (λ _. pure following)
      (record-Advances h following live) (λ _. Moves-pure Advances-order following)

pub refresh-Advances : (reply : Result JobStatus) → Moves Advances (refresh_status reply)
unfolding refresh_status
refresh-Advances reply = record { at = λ h. unless-Advances h.status _ h (read-Advances reply h) }
