-- ===== src/Process/Calls/Status.antt =====
-- What a handle has seen of its job, over any sequence of calls.
use thunder_sandbox.Prelude.{◌≡◌, refl, sym, subst, List, arith}
use thunder_sandbox.Common.Errors.{Result, ok, err}
use thunder_sandbox.Process.Handle.{Handle}
use thunder_sandbox.Process.Cleanup.{
  Stream, mark_eof, stdout, stderr, maybe_auto_cleanup, cleanup_remote,
}
use thunder_sandbox.Process.Monotone.{
  Follows, Advances, Follows-same, Advances-order, refresh-Advances, accept-Advances,
}
use thunder_sandbox.Process.Calls.{IsKept}
use thunder_sandbox.Process.Calls.Sequence.{Call, perform_all, perform_all-keeps}

status_same : (h k : Handle) → k.status ≡ h.status → Advances h k
status_same h k e = record { status = subst (Follows h.status) (sym e) (Follows-same h.status) }

schedule_status : (h : Handle) → (maybe_auto_cleanup h).1.status ≡ h.status
unfolding maybe_auto_cleanup
schedule_status h = ground arith

remove_status :
    (reply : Result (Unit {0})) (h : Handle) → (cleanup_remote reply h).1.status ≡ h.status
unfolding cleanup_remote
remove_status (ok u) h = ground arith
remove_status (err e) h = ground arith

mark-Advances : (stream : Stream) (h : Handle) → Advances h (mark_eof stream h)
mark-Advances stdout h = status_same h _ refl
mark-Advances stderr h = status_same h _ refl

Advances-kept : IsKept Advances
Advances-kept = record {
  order = Advances-order;
  refresh = refresh-Advances;
  accept = accept-Advances;
  sign = λ g p h. status_same h _ refl;
  schedule = record { at = λ h. status_same h _ (schedule_status h) };
  remove = λ reply. record { at = λ h. status_same h _ (remove_status reply h) };
  mark = mark-Advances;
  unschedule = λ h. status_same h _ refl;
}

-- Whatever is called and whatever the sandbox answers, the status that a handle holds never goes
-- back to an earlier stage, and once it is final it stays exactly as it is.
pub perform_all-Advances : (cs : List Call) (h : Handle) → Advances h (perform_all cs h)
perform_all-Advances cs h = perform_all-keeps Advances-kept cs h
