-- ===== src/Operations/Jobs.antt =====
-- The durable jobs of a sandbox: `_launch_detached_job`, `_read_job_status`, `_read_job_spec`,
-- `_read_job_output`, `_cleanup_job`, `_signal_job` and `get_process`
-- (thunder_sandbox/asynchronous/sandbox.py).
pub mod Launch
pub mod Recovery
use thunder_sandbox.Prelude.{
  ℕ, Bool, true, false, ◌||◌, not, Option, none, some, List, [], ◌∷◌, Text, codes, text_eq, ℤ, pos,
  negsuc, is_nat, is_non_positive, map, if◌then◌else◌,
}
use thunder_sandbox.Common.Errors.{
  Error, ErrorKind, thunder_error, plain, Result, ok, err, assertion_error,
}
use thunder_sandbox.Common.Json.{Json}
use thunder_sandbox.Ssh.Manager.{SshError, Reply, returned, raised}
use thunder_sandbox.Ssh.Retry.{Round, run}
use thunder_sandbox.Jobs.Paths.{RemoteJobPaths, job_root, make_paths, validate_job_id}
use thunder_sandbox.Jobs.Spec.{Env, JobSpec, make_spec}
use thunder_sandbox.Jobs.Spec.Decode.{spec_from_json}
use thunder_sandbox.Jobs.Status.{JobStatus, from_json}
use thunder_sandbox.Operations.Command.{
  Ended, returns, passes, raises, pending, ◌>>=◌, ◌>>◌, raise_kind, require, from_result, Completed,
  is_zero, Call, run_checked, run_idempotent, ended, never, asks_again,
}

-- what `json.loads` makes of a command's output, `none` where it is no JSON
abbrev pub Output : Type 0
Output = Option Json

abbrev pub status_or_failed : Result JobStatus → Ended JobStatus
status_or_failed (ok s) = returns s
status_or_failed (err e) = raise_kind ErrorKind.sandbox_failed

-- `_decode_status`
unfoldable pub decode_status : Output → Ended JobStatus
decode_status j = status_or_failed (from_json j)

abbrev pub paths_of : Text → Ended RemoteJobPaths
paths_of job_id = from_result (make_paths job_id job_root)

unfoldable pub read_job_status : Text → Call (Completed Output) → Ended JobStatus
read_job_status job_id c = do
  paths_of job_id
  r ← run_idempotent never false c
  if is_zero r.returncode then decode_status r.stdout else raise_kind ErrorKind.not_found

abbrev pub spec_or_failed : Result JobSpec → Ended JobSpec
spec_or_failed (ok s) = returns s
spec_or_failed (err e) = raise_kind ErrorKind.sandbox_failed

-- the specification of another job is refused
unfoldable pub own_spec : Text → JobSpec → Ended JobSpec
own_spec job_id s =
    if text_eq s.job_id job_id then returns s else raise_kind ErrorKind.sandbox_failed

unfoldable pub decode_own_spec : Text → Output → Ended JobSpec
decode_own_spec job_id j = do s ← spec_or_failed (spec_from_json j); own_spec job_id s

unfoldable pub read_job_spec : Text → Call (Completed Output) → Ended JobSpec
read_job_spec job_id c = do
  paths_of job_id
  r ← run_idempotent never false c
  if is_zero r.returncode then decode_own_spec job_id r.stdout else raise_kind ErrorKind.not_found

abbrev pub id_or_invalid : Result Text → Ended Text
id_or_invalid (ok t) = returns t
id_or_invalid (err e) = raise_kind ErrorKind.invalid_request

-- `get_process`, without the handle that it makes of both
unfoldable pub get_process :
    Text → Call (Completed Output) → Call (Completed Output) → Ended (JobSpec × JobStatus)
get_process job_id spec_call status_call = do
  id_or_invalid (validate_job_id job_id)
  spec ← read_job_spec job_id spec_call
  status ← read_job_status job_id status_call
  returns (spec, status)

-- the end of the inner function `read` of `_read_job_output`
abbrev pub output_reply {ℓ} : {A : Type ℓ} → Option ℤ → A → Reply A
output_reply none out = raised SshError.retryable_operation
output_reply (some n) out =
    if is_nat 0 n then returned out else raised (SshError.thunder ErrorKind.sandbox_failed)

abbrev pub output_of {ℓ} : {A : Type ℓ} → Reply (Completed A) → Reply A
output_of (returned c) = output_reply c.returncode c.stdout
output_of (raised e) = raised e

abbrev pub output_round {ℓ} : {A : Type ℓ} → Round (Completed A) → Round A
output_round r = record {
  is_closed = r.is_closed;
  refusal = r.refusal;
  operation = λ c. output_of (r.operation c);
  duration = r.duration;
  jitter = r.jitter;
  oversleep = r.oversleep;
}

abbrev pub is_stream : Text → Bool
is_stream t = text_eq t (codes "stdout") || text_eq t (codes "stderr")

-- `_read_job_output`; the output is the bytes that were read
unfoldable pub read_job_output : Text → Text → Call (Completed (List ℕ)) → Ended (List ℕ)
read_job_output job_id stream c = do
  paths_of job_id
  if is_stream stream
      then ended (run c.deadline (map output_round c.rounds) c.manager c.now)
      else raise_kind ErrorKind.invalid_request

-- `_cleanup_job`
unfoldable pub cleanup_job : Text → Call (Completed Output) → Ended (Unit {0})
cleanup_job job_id c = do
  paths_of job_id
  r ← run_idempotent never false c
  if is_zero r.returncode then returns tt else raise_kind ErrorKind.sandbox_failed

abbrev pub is_signal : Text → Bool
is_signal t = text_eq t (codes "TERM") || text_eq t (codes "KILL")

-- `_signal_job`
unfoldable pub signal_job : Text → Text → ℤ → Call (Completed Output) → Ended JobStatus
signal_job job_id signal pid c = do
  require (is_signal signal) ErrorKind.invalid_request
  require (not (is_non_positive pid)) ErrorKind.invalid_request
  paths_of job_id
  r ← run_idempotent asks_again false c
  if is_zero r.returncode then decode_status r.stdout else raise_kind ErrorKind.sandbox_failed

-- `except (OSError, asyncssh.Error)`
abbrev pub is_transport : SshError → Bool
is_transport SshError.host_key_not_verifiable = true
is_transport SshError.permission_denied = true
is_transport SshError.os_error = true
is_transport SshError.ssh_error = true
is_transport SshError.retryable_operation = true
is_transport _ = false

abbrev pub as_connection_error {ℓ} : {A : Type ℓ} → Ended A → Ended A
as_connection_error (passes e) =
    if is_transport e then raise_kind ErrorKind.connection else passes e
as_connection_error m = m

-- the end of `_launch_detached_job`
unfoldable pub launched : JobSpec → Completed Output → Ended (JobSpec × JobStatus)
launched spec r = elim r.returncode [
  | none ↦ raises assertion_error
  | some n ↦
      if is_nat 0 n
      then (do status ← decode_status r.stdout; returns (spec, status))
      else raise_kind ErrorKind.sandbox_failed
]

-- what a caller asks for
pub record Request : Type 0 where
  pub argv : List Text
  pub workdir : Option Text
  pub user : Option Text
  pub env : Option Env
  pub stdout : Text
  pub stderr : Text
  pub retain : Bool

abbrev pub spec_of_request : Text → Option Text → Request → Result JobSpec
spec_of_request job_id container q =
    make_spec job_id q.argv q.workdir q.env container q.stdout q.stderr q.retain q.user

-- `_launch_detached_job`, with the new job's identifier and the container's name, if there is one
unfoldable pub launch_detached_job :
    Text → Option Text → Request → Call (Completed Output) → Ended (JobSpec × JobStatus)
launch_detached_job job_id container q c = do
  paths_of job_id
  spec ← from_result (spec_of_request job_id container q)
  r ← as_connection_error (run_checked asks_again c)
  launched spec r
