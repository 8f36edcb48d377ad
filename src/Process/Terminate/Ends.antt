-- ===== src/Process/Terminate/Ends.antt =====
-- How a call of `terminate` ends, and the signals that it has sent by then.
use thunder_sandbox.Prelude.{
  ◌≡◌, refl, ◌∙◌, inl, inr, Bool, true, false, ◌||◌, ◌&&◌, Option, none, some, List, [], ◌∷◌, ◌++◌,
  ℤ, Bool-cases, if◌then◌else◌, append_assoc, ◌+◌,
}
use thunder_sandbox.Common.Errors.{Error, Result, ok, err}
use thunder_sandbox.Common.Task.{Ran, done, threw, waiting, Task, resume, ◌>>=◌}
use thunder_sandbox.Jobs.State.{terminal}
use thunder_sandbox.Jobs.Status.{JobStatus}
use thunder_sandbox.Process.Handle.{Signal, term, kill, Handle, is_terminal}
use thunder_sandbox.Process.Cleanup.{maybe_auto_cleanup}
use thunder_sandbox.Process.Terminate.{
  termination_grace, send_signal, grace, Answers, kill_job, terminate,
}
use thunder_sandbox.Process.Terminate.Reading.{
  Watched, first-Watched, accept-Watched, await-Watched, grace-Watched,
}

-- what has been sent, after `before`: nothing, TERM, or TERM and then KILL
pub data Escalation (before : List (Signal × ℤ)) : List (Signal × ℤ) → Type 0 where
  none_sent : Escalation before before
  term_sent : (p : ℤ) → Escalation before (before ++ (term, p) ∷ [])
  kill_sent : (p q : ℤ) → Escalation before (before ++ (term, p) ∷ (kill, q) ∷ [])

abbrev pub Stopped : Ran (Unit {0}) × Handle → Type 0
Stopped (done u, k) = is_terminal k.status ≡ true
Stopped _ = Unit

pub record Ended (before : List (Signal × ℤ)) (r : Ran (Unit {0}) × Handle) : Type 0 where
  pub sent : Escalation before r.1.signals
  pub stopped : Stopped r

module _ (before : List (Signal × ℤ)) where
  quiet_sent :
      {now : List (Signal × ℤ)} (later : List (Signal × ℤ))
      → later ≡ now
      → Escalation before now
      → Escalation before later
  quiet_sent later q e = rw q e

  stop-Ended :
      (s : JobStatus) (h : Handle)
      → Escalation before h.signals
      → h.status ≡ some s
      → terminal s.state ≡ true
      → Ended before (done tt, h)
  stop-Ended s h e f t = record { sent = e; stopped = rw (f, t) refl }

  throw-Ended : (x : Error) (h : Handle) → Escalation before h.signals → Ended before (threw x, h)
  throw-Ended x h e = record { sent = e; stopped = tt }

  schedule-Ended :
      (s : JobStatus) (h : Handle)
      → Escalation before h.signals
      → h.status ≡ some s
      → terminal s.state ≡ true
      → Ended before (maybe_auto_cleanup h)
  unfolding maybe_auto_cleanup
  schedule-Ended s h e f t = elim (Bool-cases (h.retain || h.cleaned)) [
    | inl x ↦ rw x (stop-Ended s h e f t)
    | inr x ↦ rw x (elim (Bool-cases (is_terminal h.status && (h.stdout_eof && h.stderr_eof))) [
      | inl y ↦ rw y (stop-Ended s _ e f t)
      | inr y ↦ rw y (stop-Ended s h e f t)
    ])
  ]

  if-Ended :
      (b : Bool) (m n : Task Handle (Unit {0})) (h : Handle)
      → (b ≡ true → Ended before (m h))
      → (b ≡ false → Ended before (n h))
      → Ended before ((if b then m else n) h)
  if-Ended true m n h f g = f refl
  if-Ended false m n h f g = g refl

  Watched-Ended :
      (h : Handle) (r : Ran JobStatus × Handle) (k : JobStatus → Task Handle (Unit {0}))
      → Watched h r
      → Escalation before h.signals
      → ((s : JobStatus) (l : Handle)
          → l.signals ≡ h.signals
          → l.status ≡ some s
          → Ended before (k s l))
      → Ended before (resume r k)
  Watched-Ended h (done s, l) k w e f = f s l w.quiet w.shown
  Watched-Ended h (threw x, l) k w e f = throw-Ended x l (quiet_sent l.signals w.quiet e)
  Watched-Ended h (waiting, l) k w e f = record {
    sent = quiet_sent l.signals w.quiet e;
    stopped = tt;
  }

  -- a signal that was sent, and its reply
  abbrev signalled : Signal → ℤ → Handle → Handle
  signalled g p h = record h { signals = h.signals ++ (g, p) ∷ [] }

  send-Ended :
      (g : Signal) (o : Option ℤ) (reply : Result JobStatus) (h : Handle)
      (k : JobStatus → Task Handle (Unit {0}))
      → Escalation before h.signals
      → ((p : ℤ) → Escalation before (h.signals ++ (g, p) ∷ []))
      → ((p : ℤ) (s : JobStatus) (l : Handle)
          → l.signals ≡ h.signals ++ (g, p) ∷ []
          → l.status ≡ some s
          → Ended before (k s l))
      → Ended before ((send_signal g o reply >>= k) h)
  unfolding send_signal ◌>>=◌
  send-Ended g none reply h k e e' f = throw-Ended _ h e
  send-Ended g (some p) (err x) h k e e' f = throw-Ended x (signalled g p h) (e' p)
  send-Ended g (some p) (ok s) h k e e' f =
      Watched-Ended (signalled g p h) _ k (accept-Watched s (signalled g p h)) (e' p) (f p)

  kill-Ended :
      (a : Answers) (s : JobStatus) (h : Handle) (p : ℤ)
      → h.signals ≡ before ++ (term, p) ∷ []
      → Ended before (kill_job a s h)
  unfolding kill_job
  kill-Ended a s h p q =
      let killed : (c : ℤ) → Escalation before (h.signals ++ (kill, c) ∷ []) =
        λ c. rw (q, append_assoc) (Escalation.kill_sent p c) in
      send-Ended kill s.pid a.kill_reply h _ (quiet_sent h.signals q (Escalation.term_sent p))
        killed
        λ c t l r f.
          if-Ended (terminal t.state) _ _ l
            (schedule-Ended t l (quiet_sent l.signals r (killed c)) f)
            λ x. throw-Ended _ l (quiet_sent l.signals r (killed c))

  grace-Ended :
      (a : Answers) (s : JobStatus) (h : Handle) (p : ℤ)
      → h.signals ≡ before ++ (term, p) ∷ []
      → h.status ≡ some s
      → Ended before (
          (do
            v ← grace (a.term_at + termination_grace) a.turns s
            if terminal v.state then maybe_auto_cleanup else kill_job a v)
            h)
  unfolding ◌>>=◌
  grace-Ended a s h p q f =
      let sent = quiet_sent h.signals q (Escalation.term_sent p) in
      Watched-Ended h _ _ (grace-Watched (a.term_at + termination_grace) a.turns s h f) sent
        λ v l r g.
          if-Ended (terminal v.state) _ _ l (schedule-Ended v l (quiet_sent l.signals r sent) g)
            λ x. kill-Ended a v l p (r ∙ q)

-- However a call of `terminate` ends, it has sent nothing, TERM, or TERM and then KILL; if it
-- returns, the handle holds a final status.
pub terminate-Ended : (a : Answers) (h : Handle) → Ended h.signals (terminate a h)
unfolding terminate ◌>>=◌
terminate-Ended a h =
    let before = h.signals in
    Watched-Ended before h _ _ (first-Watched a.first h) Escalation.none_sent λ s l q f.
      Watched-Ended before l _ _ (await-Watched a.pid_reads s l f)
        (quiet_sent before l.signals q Escalation.none_sent)
        λ t m r g.
          let same = r ∙ q in
          if-Ended before (terminal t.state) _ _ m
            (stop-Ended before t m (quiet_sent before m.signals same Escalation.none_sent) g)
            λ live.
              send-Ended before term t.pid a.term_reply m _
                (quiet_sent before m.signals same Escalation.none_sent)
                (λ p. rw same (Escalation.term_sent p))
                λ p u n d e.
                  if-Ended before (terminal u.state) _ _ n
                    (schedule-Ended before u n (rw (d, same) (Escalation.term_sent p)) e)
                    λ x. grace-Ended before a u n p (rw (← same) d) e
