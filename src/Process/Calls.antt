-- ===== src/Process/Calls.antt =====
-- What each elementary step of a handle keeps, whole calls keep: `wait`, `cleanup`, `terminate`.
pub mod Sequence
pub mod Status
pub mod Removal
pub mod Cleaned
use thunder_sandbox.Prelude.{
  ℕ, ◌≡◌, ◌⊎◌, inl, inr, refl, Bool, true, false, Option, none, some, List, [], ◌∷◌, ◌++◌,
  Bool-cases, ltb, ℤ, ◌||◌, is_some, if◌then◌else◌,
}
use thunder_sandbox.Common.Errors.{
  Error, ErrorKind, type_error, assertion_error, thunder_error, Result, ok, err,
}
use thunder_sandbox.Common.Task.{Ran, done, threw, waiting, Task, pure, lift, ◌>>=◌}
use thunder_sandbox.Common.Task.Moves.{
  IsPreorder, Moves, Moves-pure, Moves-throw, Moves-wait_on, Moves-lift, Moves-if, Moves-bind,
  resumed,
}
use thunder_sandbox.Jobs.State.{terminal}
use thunder_sandbox.Jobs.Status.{JobStatus}
use thunder_sandbox.Process.Handle.{Signal, term, kill, Handle, refresh_status, accept_status}
use thunder_sandbox.Process.Cleanup.{
  Stream, mark_eof, stream_reached_eof, run_cleanup_task, maybe_auto_cleanup, cleanup_remote,
  finish_wait, asserted_code, wait_durable, cleanup,
}
use thunder_sandbox.Process.Terminate.{
  send_signal, known_or, first_status, await_pid, is_connection, caught, Turn, grace, Answers,
  kill_job, terminate,
}

-- the elementary steps
pub record IsKept (R : Handle → Handle → Type 0) : Type 0 where
  pub order : IsPreorder R
  pub refresh : (reply : Result JobStatus) → Moves R (refresh_status reply)
  pub accept : (s : JobStatus) → Moves R (accept_status s)
  pub sign :
      (g : Signal) (p : ℤ) (h : Handle) → R h (record h { signals = h.signals ++ (g, p) ∷ [] })
  pub schedule : Moves R maybe_auto_cleanup
  pub remove : (reply : Result (Unit {0})) → Moves R (cleanup_remote reply)
  pub mark : (stream : Stream) (h : Handle) → R h (mark_eof stream h)
  pub unschedule : (h : Handle) → R h (record h { scheduled = false })

module _ {R : Handle → Handle → Type 0} (kept : IsKept R) where
  open kept use {order, refresh, accept, sign, schedule, remove, mark, unschedule}

  keep_pure : {A : Type 0} (a : A) → Moves R (pure a)
  keep_pure a = Moves-pure order a

  keep_if :
      {A : Type 0} (b : Bool) (m n : Task Handle A)
      → Moves R m
      → Moves R n
      → Moves R (if b then m else n)
  keep_if b m n h k = Moves-if order b m n h k

  keep_bind :
      {A B : Type 0} (m : Task Handle A) (k : A → Task Handle B)
      → Moves R m
      → ((a : A) → Moves R (k a))
      → Moves R (m >>= k)
  keep_bind m k h g = Moves-bind order m k h g

  keep_code : (o : Option ℤ) → Moves R (asserted_code o)
  keep_code none = Moves-throw order assertion_error
  keep_code (some c) = keep_pure c

  keep_finish : (s : JobStatus) → Moves R (finish_wait s)
  unfolding finish_wait
  keep_finish s =
      keep_bind _ _ (keep_code s.returncode) λ c. keep_bind _ _ schedule λ _. keep_pure c

  pub wait-Moves : (replies : List (Result JobStatus)) → Moves R (wait_durable replies)
  unfolding wait_durable
  wait-Moves [] = Moves-wait_on order
  wait-Moves (reply ∷ replies) =
      let again = wait-Moves replies in
      keep_bind _ _ (refresh reply) λ s. keep_if (terminal s.state) _ _ (keep_finish s) again

  pub cleanup-Moves :
      (replies : List (Result JobStatus)) (reply : Result (Unit {0}))
      → Moves R (cleanup replies reply)
  unfolding cleanup
  cleanup-Moves replies reply = keep_bind _ _ (wait-Moves replies) λ c. remove reply

  keep_send :
      (g : Signal) (o : Option ℤ) (reply : Result JobStatus) → Moves R (send_signal g o reply)
  unfolding send_signal
  keep_send g none reply = Moves-throw order type_error
  keep_send g (some p) reply = record {
    at = λ h.
        order.chain h _ _ (sign g p h)
          ((keep_bind (lift reply) accept_status (Moves-lift order reply) accept).at _);
  }

  keep_known :
      (o : Option JobStatus) (m : Task Handle JobStatus) → Moves R m → Moves R (known_or o m)
  keep_known none m k = k
  keep_known (some s) m k = keep_pure s

  keep_first : (reply : Result JobStatus) → Moves R (first_status reply)
  unfolding first_status
  keep_first reply = record {
    at = λ h. (keep_known h.status (refresh_status reply) (refresh reply)).at h;
  }

  keep_await : (replies : List (Result JobStatus)) (s : JobStatus) → Moves R (await_pid replies s)
  unfolding await_pid
  keep_await [] s =
      keep_if (terminal s.state || is_some s.pid) _ _ (keep_pure s) (Moves-wait_on order)
  keep_await (reply ∷ replies) s =
      let again = keep_await replies in
      keep_if (terminal s.state || is_some s.pid) _ _ (keep_pure s)
        (keep_bind (refresh_status reply) (await_pid replies) (refresh reply) again)

  keep_caught :
      (h : Handle) (r : Ran JobStatus × Handle) (s : JobStatus)
      (k : JobStatus → Task Handle JobStatus)
      → R h r.1
      → ((t : JobStatus) → Moves R (k t))
      → R h (caught r s k).1
  keep_caught h (done t, h') s k m f = elim (Bool-cases (terminal t.state)) [
    | inl e ↦ rw e m
    | inr e ↦ rw e (order.chain h h' _ m ((f t).at h'))
  ]
  keep_caught h (threw x, h') s k m f = elim (Bool-cases (is_connection x)) [
    | inl e ↦ rw e m
    | inr e ↦ rw e m
  ]
  keep_caught h (waiting, h') s k m f = m

  keep_grace : (deadline : ℕ) (turns : List Turn) (s : JobStatus) → Moves R (grace deadline turns s)
  unfolding grace
  keep_grace deadline [] s = record { at = order.same }
  keep_grace deadline (turn ∷ turns) s =
      let again = keep_grace deadline turns in
      record {
        at = λ h. elim (Bool-cases (ltb turn.now deadline)) [
          | inl e ↦ rw e (
              keep_caught h (refresh_status turn.reply h) s (grace deadline turns)
                ((refresh turn.reply).at h) again)
          | inr e ↦ rw e (order.same h)
        ];
      }

  keep_kill : (a : Answers) (s : JobStatus) → Moves R (kill_job a s)
  unfolding kill_job
  keep_kill a s =
      keep_bind _ _ (keep_send kill s.pid a.kill_reply)
        λ t. keep_if (terminal t.state) _ _ schedule (Moves-throw order _)

  pub terminate-Moves : (a : Answers) → Moves R (terminate a)
  unfolding terminate
  terminate-Moves a = keep_bind _ _ (keep_first a.first) λ s.
      keep_bind _ _ (keep_await a.pid_reads s) λ t. keep_if (terminal t.state) _ _ (keep_pure tt) (
        keep_bind _ _ (keep_send term t.pid a.term_reply) λ u.
          keep_if (terminal u.state) _ _ schedule (
            keep_bind _ _ (keep_grace _ a.turns u)
              λ v. keep_if (terminal v.state) _ _ schedule (keep_kill a v)))

  pub eof-keeps : (stream : Stream) (h : Handle) → R h (stream_reached_eof stream h).1
  unfolding stream_reached_eof
  eof-keeps stream h = order.chain h (mark_eof stream h) _ (mark stream h) (schedule.at _)

  keep_when : (b : Bool) (h k : Handle) → R h k → R h (if b then k else h)
  keep_when true h k r = r
  keep_when false h k r = order.same h

  pub task-keeps : (reply : Result (Unit {0})) (h : Handle) → R h (run_cleanup_task reply h)
  unfolding run_cleanup_task
  task-keeps reply h =
      keep_when h.scheduled h _
        (order.chain h (cleanup_remote reply h).1 _ ((remove reply).at h) (unschedule _))
