-- ===== src/Ssh/Retry/Custody.antt =====
-- The manager's connections across a call of `run`.
use thunder_sandbox.Prelude.{
  ℕ, ◌<◌, ◌≡◌, subst, Option, none, some, List, [], ◌∷◌, Bool-cases, inl, inr,
}
use thunder_sandbox.Ssh.Manager.{is_transient, Manager, Reply, returned, raised, get}
use thunder_sandbox.Ssh.Manager.Soundness.{Below, Handed, IsSound, get-IsSound, discard-IsSound}
use thunder_sandbox.Ssh.Retry.{
  Round, Loop, Outcome, success, failure, exhausted, late, running, attempt, attempt_with,
  discard_used, is_late, back_off, settle, round, then_next, run_from, run,
}

-- the manager that a call leaves
abbrev pub left {ℓ} : {A : Type ℓ} → Outcome A → Manager
left (success a m) = m
left (failure e m) = m
left (exhausted t m) = m
left (late t m) = m
left (running l) = l.manager

-- the connection that an attempt used was opened by the manager
abbrev UsedBelow : ℕ → Option ℕ → Type 0
UsedBelow n none = Unit
UsedBelow n (some c) = c < n

handed_below : (c : ℕ) (m : Manager) → IsSound m → m.cached ≡ some c → c < m.opened
handed_below c m h e = subst (Below m.opened) e h.cached_opened

discard_used-IsSound :
    (used : Option ℕ) (m : Manager)
    → UsedBelow m.opened used
    → IsSound m
    → IsSound (discard_used used m)
discard_used-IsSound none m b h = h
discard_used-IsSound (some c) m b h = (discard-IsSound c m b h).0

module _ {ℓ} {A : Type ℓ} (deadline : Option ℕ) where
  back_off-IsSound :
      (r : Round A) (now delay : ℕ) (o : Option ℕ) (m : Manager)
      → IsSound m
      → IsSound (left (back_off deadline r now delay o m))
  unfolding back_off
  back_off-IsSound r now delay none m h = h
  back_off-IsSound r now delay (some s) m h = elim (Bool-cases (is_late deadline now)) [
    | inl e ↦ rw e h
    | inr e ↦ rw e h
  ]

  settle-IsSound :
      (r : Round A) (l : Loop) (used : Option ℕ) (reply : Reply A) (m : Manager)
      → UsedBelow m.opened used
      → IsSound m
      → IsSound (left (settle deadline r l (used, reply, m)))
  unfolding settle
  settle-IsSound r l used (returned a) m b h = h
  settle-IsSound r l used (raised e) m b h = elim (Bool-cases (is_transient e)) [
    | inl t ↦
        rw t (back_off-IsSound r _ _ _ (discard_used used m) (discard_used-IsSound used m b h))
    | inr t ↦ rw t h
  ]

  attempt-IsSound :
      (r : Round A) (l : Loop) (got : Reply ℕ × Manager)
      → IsSound got.1
      → Handed got
      → IsSound (left (settle deadline r l (attempt_with r got)))
  attempt-IsSound r l (returned c, m) h handed =
      settle-IsSound r l (some c) (r.operation c) m (handed_below c m h handed.0) h
  attempt-IsSound r l (raised e, m) h handed = settle-IsSound r l none (raised e) m tt h

  round-IsSound : (r : Round A) (l : Loop) → IsSound l.manager → IsSound (left (round deadline r l))
  unfolding round attempt
  round-IsSound r l h =
      let (sound, handed) = get-IsSound r.is_closed r.refusal l.manager h in
      attempt-IsSound r l (get r.is_closed r.refusal l.manager) sound handed

  next-IsSound :
      (o : Outcome A) (k : Loop → Outcome A)
      → IsSound (left o)
      → ((l : Loop) → IsSound l.manager → IsSound (left (k l)))
      → IsSound (left (then_next o k))
  next-IsSound (success a m) k h n = h
  next-IsSound (failure e m) k h n = h
  next-IsSound (exhausted t m) k h n = h
  next-IsSound (late t m) k h n = h
  next-IsSound (running l) k h n = n l h

  run_from-IsSound :
      (rs : List (Round A)) (l : Loop) → IsSound l.manager → IsSound (left (run_from deadline rs l))
  unfolding run_from
  run_from-IsSound [] l h = h
  run_from-IsSound (r ∷ rs) l h =
      next-IsSound (round deadline r l) (run_from deadline rs) (round-IsSound r l h)
        (run_from-IsSound rs)

  -- However a call of `run` ends, and after any number of rounds, the manager is sound: its cached
  -- connection was not closed by it, and a closed manager has none.
  pub run-IsSound :
      (rs : List (Round A)) (m : Manager) (now : ℕ)
      → IsSound m
      → IsSound (left (run deadline rs m now))
  unfolding run
  run-IsSound rs m now h = run_from-IsSound rs _ h
