-- ===== src/Process/Calls/Cleaned.antt =====
-- That the remote artifacts of a job are removed once, over any sequence of calls
-- (thunder_sandbox/asynchronous/process.py).
use thunder_sandbox.Prelude.{
  ◌≡◌, refl, true, Option, none, some, List, arith, ◌∙◌, Bool-cases, inl, inr,
}
use thunder_sandbox.Common.Errors.{Result, ok, err}
use thunder_sandbox.Common.Task.{Task, pure, ◌>>=◌, ◌>>◌}
use thunder_sandbox.Jobs.State.{terminal}
use thunder_sandbox.Jobs.Status.{JobStatus}
use thunder_sandbox.Process.Handle.{
  Handle, record_status, unless_terminal, read_and_record, refresh_status, accept_status,
}
use thunder_sandbox.Process.Cleanup.{
  Stream, mark_eof, stdout, stderr, maybe_auto_cleanup, cleanup_remote,
}
use thunder_sandbox.Process.Calls.{IsKept}
use thunder_sandbox.Process.Calls.Sequence.{Call, perform_all, perform_all-keeps}

abbrev Settled : Handle → Handle → Type 0
Settled h k = h.cleaned ≡ true → (k.cleaned ≡ true) × (k.cleanups ≡ h.cleanups)

unless-Settled :
    (o : Option JobStatus) (m : Task Handle JobStatus) (h : Handle)
    → Settled h (m h).1
    → Settled h (unless_terminal o m h).1
unless-Settled none m h f = f
unless-Settled (some s) m h f = elim (Bool-cases (terminal s.state)) [
  | inl t ↦ rw t (λ c. (c, refl))
  | inr t ↦ rw t f
]

read-Settled :
    (o : Option JobStatus) (reply : Result JobStatus) (h : Handle)
    → Settled h (read_and_record o reply h).1
unfolding read_and_record record_status ◌>>=◌
read-Settled o (ok s) h c = ground arith
read-Settled o (err e) h c = (c, refl)

refresh-Settled : (reply : Result JobStatus) (h : Handle) → Settled h (refresh_status reply h).1
unfolding refresh_status
refresh-Settled reply h = unless-Settled h.status _ h (read-Settled h.status reply h)

taken-Settled : (s : JobStatus) (h : Handle) → Settled h ((do record_status h.status s; pure s) h).1
unfolding record_status ◌>>=◌
taken-Settled s h c = ground arith

accept-Settled : (s : JobStatus) (h : Handle) → Settled h (accept_status s h).1
unfolding accept_status
accept-Settled s h = unless-Settled h.status _ h (taken-Settled s h)

schedule-Settled : (h : Handle) → Settled h (maybe_auto_cleanup h).1
unfolding maybe_auto_cleanup
schedule-Settled h c = ground arith

remove-Settled : (reply : Result (Unit {0})) (h : Handle) → Settled h (cleanup_remote reply h).1
unfolding cleanup_remote
remove-Settled (ok u) h c = ground arith
remove-Settled (err x) h c = ground arith

mark-Settled : (stream : Stream) (h : Handle) → Settled h (mark_eof stream h)
mark-Settled stdout h c = (c, refl)
mark-Settled stderr h c = (c, refl)

Settled-kept : IsKept Settled
Settled-kept = record {
  order = record {
    same = λ h c. (c, refl);
    chain = λ h k l f g c. let (d, e) = f c in let (d', e') = g d in (d', e' ∙ e);
  };
  refresh = λ reply. record { at = refresh-Settled reply };
  accept = λ s. record { at = accept-Settled s };
  sign = λ g p h c. (c, refl);
  schedule = record { at = schedule-Settled };
  remove = λ reply. record { at = remove-Settled reply };
  mark = mark-Settled;
  unschedule = λ h c. (c, refl);
}

-- Once the remote artifacts have been removed, no sequence of calls asks for their removal again.
pub perform_all-cleaned :
    (cs : List Call) (h : Handle)
    → h.cleaned ≡ true
    → ((perform_all cs h).cleaned ≡ true) × ((perform_all cs h).cleanups ≡ h.cleanups)
perform_all-cleaned cs h = perform_all-keeps Settled-kept cs h
