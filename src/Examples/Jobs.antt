-- ===== src/Examples/Jobs.antt =====
-- Jobs of thunder_sandbox/asynchronous/_jobs.py.
use mathlib.Core.List.{Permᴰ}
use thunder_sandbox.Common.Sort.Order.{Ascending}
use thunder_sandbox.Jobs.Spec.{Env}
use thunder_sandbox.Prelude.{◌≡◌, refl, arith, false, none, some, [], ◌∷◌, Text, codes, pos}
use thunder_sandbox.Common.Errors.{ok, err, value_error, ◌>>=◌}
use thunder_sandbox.Common.Json.{Json, Fields}
use thunder_sandbox.Jobs.State.{succeeded}
use thunder_sandbox.Jobs.Status.{JobStatus, make, from_json}
use thunder_sandbox.Jobs.Status.Decode.{make_iff, from_json-to_value, from_json_cases}
use thunder_sandbox.Jobs.Paths.{
  job_root, RemoteJobPaths, make_paths, validate_job_id, is_job_id, status, file_name, file_path,
  path_text, directory, ◌/ₚ◌, split_slash,
}
use thunder_sandbox.Jobs.Spec.{
  JobSpec, make_spec, validate_arguments, validate_optional, validate_env, validate_env_value,
}
use thunder_sandbox.Jobs.Spec.Decode.{spec_from_json}
use thunder_sandbox.Jobs.Spec.Validity.{make_spec_iff}
use thunder_sandbox.Jobs.Spec.Decode.RoundTrip.{spec_from_json-to_value}

abbrev exited : JobStatus
exited = record { state = succeeded; pid = some (pos 7); returncode = some (pos 0) }

exited-IsValid : thunder_sandbox.Jobs.Status.Decode.IsValid exited
exited-IsValid = record { positive = omega arith; fits = refl }

-- a missing `state`
abbrev without_state : Json
without_state = Json.obj (Fields.field (codes "protocol") (Json.int (pos 1)) Fields.done)

missing_state : from_json (some without_state) ≡ err value_error
unfolding from_json ◌>>=◌
missing_state = refl

abbrev an_id : Text
an_id = codes "0123456789abcdef0123456789abcdef"

abbrev a_spec : JobSpec
a_spec = record {
  job_id = an_id;
  argv = codes "echo" ∷ codes "it's" ∷ [];
  workdir = some (codes "/work");
  env = (codes "HOME", none) ∷ (codes "A", some (codes "1")) ∷ [];
  container = none;
  stdout = codes "capture";
  stderr = codes "discard";
  retain = false;
  user = none;
}

a_spec-made :
    make_spec a_spec.job_id a_spec.argv a_spec.workdir
      (some a_spec.env)
      a_spec.container
      a_spec.stdout
      a_spec.stderr
      a_spec.retain
      a_spec.user
    ≡ ok a_spec
unfolding make_spec ◌>>=◌ validate_job_id is_job_id validate_arguments validate_optional
    validate_env validate_env_value
a_spec-made = refl

a_spec-IsValid : thunder_sandbox.Jobs.Spec.Validity.IsValid a_spec
a_spec-IsValid =
    ((make_spec_iff a_spec.job_id a_spec.argv a_spec.workdir (some a_spec.env) a_spec.container
        a_spec.stdout a_spec.stderr a_spec.retain a_spec.user a_spec).0
      a_spec-made).0

spec_from_json-to_value_example :
    (e : Env) × Permᴰ e a_spec.env
    × Ascending e
    × (spec_from_json (some (thunder_sandbox.Jobs.Spec.to_value a_spec))
        ≡ ok (record a_spec { env = e }))
spec_from_json-to_value_example = spec_from_json-to_value a_spec a_spec-IsValid

abbrev a_job : RemoteJobPaths
a_job = record { job_id = an_id; root = job_root }

a_job-made : make_paths an_id job_root ≡ ok a_job
unfolding make_paths ◌>>=◌ validate_job_id is_job_id
a_job-made = refl

status_path :
    path_text (file_path a_job status)
    ≡ codes "/var/tmp/thunder-sandbox/jobs/0123456789abcdef0123456789abcdef/status.json"
unfolding path_text file_path directory file_name ◌/ₚ◌ split_slash
status_path = refl
