-- ===== src/Operations/Jobs/Launch.antt =====
-- What the launch of a durable job comes to (thunder_sandbox/asynchronous/sandbox.py).
use thunder_sandbox.Prelude.{
  ◌≡◌, refl, ap, ◌∙◌, inl, inr, false, Option, List, Text, is_nat, Bool-cases,
}
use thunder_sandbox.Common.Errors.{Error, ErrorKind, Result, ok, err, value_error}
use thunder_sandbox.Common.Errors
use thunder_sandbox.Ssh.Manager.{SshError, is_transient}
use thunder_sandbox.Ssh.Retry.{Round}
use thunder_sandbox.Jobs.Paths.{make_paths, is_job_id, validate_job_id}
use thunder_sandbox.Jobs.Spec.{JobSpec}
use thunder_sandbox.Jobs.Spec.Validity
use thunder_sandbox.Jobs.Spec.Validity.{make_spec_iff}
use thunder_sandbox.Jobs.Spec.Refusals.{make_spec-IsTame}
use thunder_sandbox.Jobs.Status.{JobStatus}
use thunder_sandbox.Operations.Command.{
  ◌>>=◌, Ended, returns, passes, raises, pending, from_result, Completed, is_zero, Call,
  run_checked, asks_again,
}
use thunder_sandbox.Operations.Command.Ends.{
  Ends, Ends-bind, Ends-if, Ends-mono, Acknowledged, run_checked-Ends,
}
use thunder_sandbox.Operations.Jobs.{
  Output, decode_status, is_transport, as_connection_error, launched, Request, spec_of_request,
  launch_detached_job,
}
use thunder_sandbox.Operations.Jobs.Recovery.{Of, Observed, decode_status-Ends}

-- the exceptions that a launch may raise
pub data Refused : Error → Type 0 where
  is_malformed : {e : Error} → e ≡ value_error → Refused e
  is_lost : {e : Error} → Of ErrorKind.connection e → Refused e
  is_failed : {e : Error} → Of ErrorKind.sandbox_failed e → Refused e

abbrev pub Foreign : SshError → Type 0
Foreign e = is_transport e ≡ false

-- the job that was launched
pub record Launched (made : Result JobSpec) (rs : List (Round (Completed Output)))
    (x : JobSpec × JobStatus) : Type 0 where
  pub asked : made ≡ ok x.0
  pub valid : Validity.IsValid x.0
  pub observed : Observed asks_again rs x.1

pub translated :
    {A : Type 0} (P : A → Type 0) (m : Ended A)
    → Ends P (λ e. is_transient e ≡ false) (Of ErrorKind.connection) m
    → Ends P Foreign Refused (as_connection_error m)
translated P (returns a) h = h
translated P (passes e) h = elim (Bool-cases (is_transport e)) [
  | inl u ↦ rw u (is_lost refl)
  | inr u ↦ rw u u
]
translated P (raises e) h = is_lost h
translated P pending h = tt

module _ (made : Result JobSpec) (s : JobSpec) (m : made ≡ ok s) (v : Validity.IsValid s) where
  launched-Ends :
      (rs : List (Round (Completed Output))) (r : Completed Output)
      → Acknowledged asks_again rs r
      → Ends (Launched made rs) Foreign Refused (launched s r)
  unfolding launched
  launched-Ends rs r h = rw (h.exited) (
      Ends-if (Launched made rs) Foreign Refused (is_nat 0 h.code) _ _
        (λ z.
          Ends-bind (λ t. Observed asks_again rs t) (Launched made rs) Foreign Refused
            (decode_status r.stdout) _
            (Ends-mono _ (λ t. Observed asks_again rs t) Foreign Foreign _ Refused
              (decode_status r.stdout)
              (λ t d. record {
                text = r.stdout;
                answered = record {
                  completed = r;
                  acknowledged = h;
                  well = ap is_zero h.exited ∙ z;
                  output = refl;
                };
                decoded = d.0;
                valid = d.1;
              })
              (λ e k. k) (λ e k. is_failed k) (decode_status-Ends Foreign r.stdout))
            λ t k. record { asked = m; valid = v; observed = k })
        λ z. is_failed refl)

  submitted-Ends :
      (c : Call (Completed Output))
      → Ends
          (Launched made c.rounds)
          Foreign
          Refused
          (as_connection_error (run_checked asks_again c) >>= launched s)
  submitted-Ends c =
      Ends-bind (Acknowledged asks_again c.rounds) (Launched made c.rounds) Foreign Refused
        (as_connection_error (run_checked asks_again c)) (launched s)
        (translated (Acknowledged asks_again c.rounds) (run_checked asks_again c)
          (run_checked-Ends asks_again c))
        (launched-Ends c.rounds)

made-Ends :
    (made : Result JobSpec) (c : Call (Completed Output))
    → ((s : JobSpec) → made ≡ ok s → Validity.IsValid s)
    → ((e : Error) → made ≡ err e → e ≡ value_error)
    → Ends
        (Launched made c.rounds)
        Foreign
        Refused
        (from_result made >>= λ s. as_connection_error (run_checked asks_again c) >>= launched s)
unfolding ◌>>=◌
made-Ends (ok s) c v w = submitted-Ends (ok s) s refl (v s refl) c
made-Ends (err e) c v w = is_malformed (w e refl)

-- A launch returns only a valid specification, the one that was asked for, and a valid status that
-- was decoded from what the submission printed, whose exit code was 0. What it raises is a
-- `ValueError` of the specification's own checks, or that the connection was lost for too long or
-- cannot be had, or that the submission failed; no exception of the transport is passed on, and the
-- assertion that the exit code is known holds.
pub launch_detached_job-Launched :
    (job_id : Text) (container : Option Text) (q : Request) (c : Call (Completed Output))
    → Ends
        (Launched (spec_of_request job_id container q) c.rounds)
        Foreign
        Refused
        (launch_detached_job job_id container q c)
unfolding launch_detached_job make_paths validate_job_id Errors.◌>>=◌ ◌>>=◌
launch_detached_job-Launched job_id container q c = elim (Bool-cases (is_job_id job_id)) [
  | inl v ↦ rw v (
      made-Ends (spec_of_request job_id container q) c
        (λ s e.
          ((make_spec_iff job_id q.argv q.workdir q.env container q.stdout q.stderr q.retain q.user
              s).0
            e).0)
        (make_spec-IsTame job_id q.argv q.workdir q.env container q.stdout q.stderr q.retain
          q.user).at)
  | inr v ↦ rw v (is_malformed refl)
]
