-- ===== src/Process/Calls/Removal.antt =====
-- When the remote artifacts of a job are removed, over any sequence of calls.
use thunder_sandbox.Prelude.{
  ◌≡◌, refl, true, false, Option, none, some, List, arith, Bool-cases, inl, inr,
}
use thunder_sandbox.Common.Errors.{Result, ok, err}
use thunder_sandbox.Common.Task.{Task, pure, ◌>>=◌, ◌>>◌}
use thunder_sandbox.Jobs.State.{terminal}
use thunder_sandbox.Jobs.Status.{JobStatus}
use thunder_sandbox.Process.Handle.{
  Handle, is_terminal, record_status, unless_terminal, read_and_record, refresh_status,
  accept_status,
}
use thunder_sandbox.Process.Cleanup.{
  Stream, mark_eof, stdout, stderr, maybe_auto_cleanup, cleanup_remote,
}
use thunder_sandbox.Process.Calls.{IsKept}
use thunder_sandbox.Process.Calls.Sequence.{Call, perform_all, perform_all-keeps}

-- what an automatic removal waits for
pub record IsOver (h : Handle) : Type 0 where
  pub not_retained : h.retain ≡ false
  pub final : is_terminal h.status ≡ true
  pub stdout_read : h.stdout_eof ≡ true
  pub stderr_read : h.stderr_eof ≡ true

abbrev pub IsCautious : Handle → Type 0
IsCautious h = h.scheduled ≡ true → IsOver h

abbrev Cautious : Handle → Handle → Type 0
Cautious h k = IsCautious h → IsCautious k

-- a handle whose job is not over has no removal scheduled
idle : (h : Handle) → IsCautious h → is_terminal h.status ≡ false → h.scheduled ≡ false
idle h c live = elim (Bool-cases h.scheduled) [
  | inl e ↦ let over = (c e).final in absurd (cc)
  | inr e ↦ e
]

unscheduled : (h k : Handle) → h.scheduled ≡ false → k.scheduled ≡ h.scheduled → IsCautious k
unscheduled h k e f s = absurd (cc)

read_scheduled :
    (o : Option JobStatus) (reply : Result JobStatus) (h : Handle)
    → (read_and_record o reply h).1.scheduled ≡ h.scheduled
unfolding read_and_record record_status ◌>>=◌
read_scheduled o (ok s) h = ground arith
read_scheduled o (err e) h = refl

unless-Cautious :
    (o : Option JobStatus) (m : Task Handle JobStatus) (h : Handle)
    → o ≡ h.status
    → (m h).1.scheduled ≡ h.scheduled
    → Cautious h (unless_terminal o m h).1
unless-Cautious none m h e f c =
    let live : is_terminal h.status ≡ false = rw⁻¹ e refl in unscheduled h (m h).1 (idle h c live) f
unless-Cautious (some s) m h e f c = elim (Bool-cases (terminal s.state)) [
  | inl t ↦ rw t c
  | inr t ↦
      let live : is_terminal h.status ≡ false = rw⁻¹ e t in
      rw t (unscheduled h (m h).1 (idle h c live) f)
]

refresh-Cautious : (reply : Result JobStatus) (h : Handle) → Cautious h (refresh_status reply h).1
unfolding refresh_status
refresh-Cautious reply h = unless-Cautious h.status _ h refl (read_scheduled h.status reply h)

accept_scheduled :
    (s : JobStatus) (h : Handle)
    → ((do record_status h.status s; pure s) h).1.scheduled ≡ h.scheduled
unfolding record_status ◌>>=◌
accept_scheduled s h = ground arith

accept-Cautious : (s : JobStatus) (h : Handle) → Cautious h (accept_status s h).1
unfolding accept_status
accept-Cautious s h = unless-Cautious h.status _ h refl (accept_scheduled s h)

same-IsOver :
    (h k : Handle)
    → k.retain ≡ h.retain
    → k.status ≡ h.status
    → k.stdout_eof ≡ h.stdout_eof
    → k.stderr_eof ≡ h.stderr_eof
    → IsOver h
    → IsOver k
same-IsOver h k r s o e over = record {
  not_retained = rw r over.not_retained;
  final = rw s over.final;
  stdout_read = rw o over.stdout_read;
  stderr_read = rw e over.stderr_read;
}

schedule-Cautious : (h : Handle) → Cautious h (maybe_auto_cleanup h).1
unfolding maybe_auto_cleanup
schedule-Cautious h c e = elim (Bool-cases h.scheduled) [
  | inl f ↦ same-IsOver h _ (ground arith) (ground arith) (ground arith) (ground arith) (c f)
  | inr f ↦ record {
    not_retained = ground arith;
    final = ground arith;
    stdout_read = ground arith;
    stderr_read = ground arith;
  }
]

remove-Cautious : (reply : Result (Unit {0})) (h : Handle) → Cautious h (cleanup_remote reply h).1
unfolding cleanup_remote
remove-Cautious (ok u) h c e =
    same-IsOver h _ (ground arith) (ground arith) (ground arith) (ground arith) (c (ground arith))
remove-Cautious (err x) h c e =
    same-IsOver h _ (ground arith) (ground arith) (ground arith) (ground arith) (c (ground arith))

mark-Cautious : (stream : Stream) (h : Handle) → Cautious h (mark_eof stream h)
mark-Cautious stdout h c e =
    let o = c e in
    record {
      not_retained = o.not_retained;
      final = o.final;
      stdout_read = refl;
      stderr_read = o.stderr_read;
    }
mark-Cautious stderr h c e =
    let o = c e in
    record {
      not_retained = o.not_retained;
      final = o.final;
      stdout_read = o.stdout_read;
      stderr_read = refl;
    }

Cautious-kept : IsKept Cautious
Cautious-kept = record {
  order = record { same = λ h c. c; chain = λ h k l f g c. g (f c) };
  refresh = λ reply. record { at = refresh-Cautious reply };
  accept = λ s. record { at = accept-Cautious s };
  sign = λ g p h c e. same-IsOver h _ refl refl refl refl (c e);
  schedule = record { at = schedule-Cautious };
  remove = λ reply. record { at = remove-Cautious reply };
  mark = mark-Cautious;
  unschedule = λ h c e. absurd (cc);
}

-- Whatever is called on a handle that begins with no removal scheduled, an automatic removal of the
-- remote artifacts is scheduled only once the job is final, both streams have been read to their
-- end, and the handle does not retain them.
pub perform_all-IsOver :
    (cs : List Call) (h : Handle)
    → h.scheduled ≡ false
    → (perform_all cs h).scheduled ≡ true
    → IsOver (perform_all cs h)
perform_all-IsOver cs h e = perform_all-keeps Cautious-kept cs h (λ s. absurd (cc))
