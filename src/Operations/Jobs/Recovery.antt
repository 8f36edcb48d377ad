-- ===== src/Operations/Jobs/Recovery.antt =====
-- What is read of a durable job (thunder_sandbox/asynchronous/sandbox.py).
use thunder_sandbox.Prelude.{
  ◌≡◌, refl, inl, inr, Bool, true, false, List, Text, text_eq, text_eq→eq, ℤ, Bool-cases,
}
use thunder_sandbox.Common.Errors.{
  Error, ErrorKind, thunder_error, plain, Result, ok, err, value_error, guard,
}
use thunder_sandbox.Common.Errors
use thunder_sandbox.Ssh.Manager.{SshError, is_transient}
use thunder_sandbox.Ssh.Retry.{Round}
use thunder_sandbox.Jobs.Paths.{is_job_id, make_paths, validate_job_id}
use thunder_sandbox.Jobs.Spec.{JobSpec}
use thunder_sandbox.Jobs.Spec.Validity
use thunder_sandbox.Jobs.Spec.Decode.{spec_from_json}
use thunder_sandbox.Jobs.Spec.Decode.RoundTrip.{spec_from_json_cases}
use thunder_sandbox.Jobs.Status.{JobStatus, from_json}
use thunder_sandbox.Jobs.Status.Decode
use thunder_sandbox.Jobs.Status.Decode.{from_json_cases}
use thunder_sandbox.Operations.Command.{
  ◌>>=◌, ◌>>◌, Ended, returns, Completed, is_zero, Call, run_checked, run_idempotent, never,
}
use thunder_sandbox.Operations.Command.Ends.{
  Ends, Ends-bind, Ends-if, Ends-mono, Acknowledged, run_checked-Ends,
}
use thunder_sandbox.Operations.Jobs.{
  Output, decode_status, paths_of, read_job_status, own_spec, decode_own_spec, read_job_spec,
  get_process,
}

abbrev pub Of : ErrorKind → Error → Type 0
Of k e = e ≡ thunder_error (plain k)

-- the output of a command that ended well
pub record Answered (retry : ℤ → Bool) (rs : List (Round (Completed Output))) (j : Output)
    : Type 0 where
  pub completed : Completed Output
  pub acknowledged : Acknowledged retry rs completed
  pub well : is_zero completed.returncode ≡ true
  pub output : completed.stdout ≡ j

-- the status that such a command printed
pub record Observed (retry : ℤ → Bool) (rs : List (Round (Completed Output))) (s : JobStatus)
    : Type 0 where
  pub text : Output
  pub answered : Answered retry rs text
  pub decoded : from_json text ≡ ok s
  pub valid : Decode.IsValid s

-- what is passed on is nothing that reconnecting could mend
abbrev pub Fatal : SshError → Type 0
Fatal e = is_transient e ≡ false

pub decode_status-Ends :
    (Q : SshError → Type 0) (j : Output)
    → Ends
        (λ s. (from_json j ≡ ok s) × Decode.IsValid s)
        Q
        (Of ErrorKind.sandbox_failed)
        (decode_status j)
unfolding decode_status
decode_status-Ends Q j = elim (from_json_cases j) [
  | inl (v, e, h) ↦ rw e (refl, h)
  | inr e ↦ rw e refl
]

-- the exceptions that reading a job may raise
pub data Reported : Error → Type 0 where
  is_invalid : {e : Error} → Of ErrorKind.invalid_request e → Reported e
  is_lost : {e : Error} → Of ErrorKind.connection e → Reported e
  is_missing : {e : Error} → Of ErrorKind.not_found e → Reported e
  is_broken : {e : Error} → Of ErrorKind.sandbox_failed e → Reported e

pub paths-Ends :
    {A : Type 0} (P : A → Type 0) (job_id : Text) (m : Ended A)
    → is_job_id job_id ≡ true
    → Ends P Fatal Reported m
    → Ends P Fatal Reported (paths_of job_id >> m)
unfolding make_paths validate_job_id Errors.◌>>=◌ ◌>>=◌
paths-Ends P job_id m v h = rw v h

pub run_idempotent-Ends :
    (retry : ℤ → Bool) (c : Call (Completed Output))
    → Ends (Acknowledged retry c.rounds) Fatal Reported (run_idempotent retry false c)
unfolding run_idempotent
run_idempotent-Ends retry c =
    Ends-bind (Acknowledged retry c.rounds) (Acknowledged retry c.rounds) Fatal Reported
      (run_checked retry c) returns
      (Ends-mono _ _ _ _ _ _ (run_checked retry c) (λ r h. h) (λ e h. h) (λ e h. is_lost h)
        (run_checked-Ends retry c))
      (λ r h. h)

Observed-Ends :
    (retry : ℤ → Bool) (rs : List (Round (Completed Output))) (r : Completed Output)
    → Acknowledged retry rs r
    → is_zero r.returncode ≡ true
    → Ends (Observed retry rs) Fatal Reported (decode_status r.stdout)
Observed-Ends retry rs r h z =
    Ends-mono _ (Observed retry rs) Fatal Fatal _ Reported (decode_status r.stdout)
      (λ s d. record {
        text = r.stdout;
        answered = record { completed = r; acknowledged = h; well = z; output = refl };
        decoded = d.0;
        valid = d.1;
      })
      (λ e k. k) (λ e k. is_broken k) (decode_status-Ends Fatal r.stdout)

module _ (job_id : Text) (known : is_job_id job_id ≡ true) where
  pub read_job_status-Ends :
      (c : Call (Completed Output))
      → Ends (Observed never c.rounds) Fatal Reported (read_job_status job_id c)
  unfolding read_job_status
  read_job_status-Ends c = paths-Ends (Observed never c.rounds) job_id _ known (
      Ends-bind (Acknowledged never c.rounds) (Observed never c.rounds) Fatal Reported
        (run_idempotent never false c) _ (run_idempotent-Ends never c)
        λ r h.
          Ends-if _ _ _ (is_zero r.returncode) _ _ (Observed-Ends never c.rounds r h)
            λ z. is_missing refl)

-- the specification that a command printed, of this job
pub record Specified (job_id : Text) (rs : List (Round (Completed Output))) (s : JobSpec)
    : Type 0 where
  pub text : Output
  pub answered : Answered never rs text
  pub decoded : spec_from_json text ≡ ok s
  pub valid : Validity.IsValid s
  pub own : s.job_id ≡ job_id

module _ (job_id : Text) (rs : List (Round (Completed Output))) (j : Output)
    (a : Answered never rs j) where
  own-Ends :
      (s : JobSpec)
      → spec_from_json j ≡ ok s
      → Validity.IsValid s
      → Ends (Specified job_id rs) Fatal Reported (own_spec job_id s)
  unfolding own_spec
  own-Ends s d v =
      Ends-if _ _ _ (text_eq s.job_id job_id) _ _
        (λ o. record {
          text = j;
          answered = a;
          decoded = d;
          valid = v;
          own = text_eq→eq s.job_id job_id o;
        })
        λ o. is_broken refl

  decode-Ends : Ends (Specified job_id rs) Fatal Reported (decode_own_spec job_id j)
  unfolding decode_own_spec ◌>>=◌
  decode-Ends = elim (spec_from_json_cases j) [
    | inl (s, e, h) ↦ rw e (own-Ends s e h)
    | inr e ↦ rw e (is_broken refl)
  ]

module _ (job_id : Text) (known : is_job_id job_id ≡ true) where
  pub read_job_spec-Ends :
      (c : Call (Completed Output))
      → Ends (Specified job_id c.rounds) Fatal Reported (read_job_spec job_id c)
  unfolding read_job_spec
  read_job_spec-Ends c = paths-Ends (Specified job_id c.rounds) job_id _ known (
      Ends-bind (Acknowledged never c.rounds) (Specified job_id c.rounds) Fatal Reported
        (run_idempotent never false c) _ (run_idempotent-Ends never c)
        λ r h.
          Ends-if _ _ _ (is_zero r.returncode) _ _
            (λ z.
              decode-Ends job_id c.rounds r.stdout
                (record { completed = r; acknowledged = h; well = z; output = refl }))
            λ z. is_missing refl)

-- what a handle is made of that was recovered
pub record Recovered (job_id : Text) (ss ts : List (Round (Completed Output)))
    (x : JobSpec × JobStatus) : Type 0 where
  pub specified : Specified job_id ss x.0
  pub observed : Observed never ts x.1

module _ (job_id : Text) (c d : Call (Completed Output)) where
  known-Ends :
      is_job_id job_id ≡ true
      → Ends
          (Recovered job_id c.rounds d.rounds)
          Fatal
          Reported
          (read_job_spec job_id c >>= λ s. read_job_status job_id d >>= λ t. returns (s, t))
  known-Ends v =
      Ends-bind (Specified job_id c.rounds) (Recovered job_id c.rounds d.rounds) Fatal Reported
        (read_job_spec job_id c) _ (read_job_spec-Ends job_id v c)
        λ s h.
          Ends-bind (Observed never d.rounds) (Recovered job_id c.rounds d.rounds) Fatal Reported
            (read_job_status job_id d) _ (read_job_status-Ends job_id v d)
            λ t k. record { specified = h; observed = k }

-- `get_process` returns only a valid specification of the job that was asked for and a valid status,
-- each decoded from what a command printed that ended well. What it raises is one of the client's own
-- exceptions: the identifier is none, the connection was lost for too long, the job is not there, or
-- what was read of it is broken. An exception of the transport is passed on only if reconnecting
-- cannot mend it.
pub get_process-Recovered :
    (job_id : Text) (c d : Call (Completed Output))
    → Ends (Recovered job_id c.rounds d.rounds) Fatal Reported (get_process job_id c d)
unfolding get_process validate_job_id Errors.◌>>=◌ ◌>>=◌
get_process-Recovered job_id c d = elim (Bool-cases (is_job_id job_id)) [
  | inl v ↦ rw v (known-Ends job_id c d v)
  | inr v ↦ rw v (is_invalid refl)
]
