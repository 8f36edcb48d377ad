-- ===== src/Examples/Operations.antt =====
-- Commands and durable jobs of a sandbox (thunder_sandbox/asynchronous/sandbox.py).
use thunder_sandbox.Prelude.{◌≡◌, refl, false, none, some, List, [], ◌∷◌, Text, codes, pos}
use thunder_sandbox.Jobs.State.{JobState}
use thunder_sandbox.Jobs.Status.{JobStatus, to_value}
use thunder_sandbox.Ssh.Manager.{fresh, returned}
use thunder_sandbox.Ssh.Retry.{Round}
use thunder_sandbox.Operations.Command.{Completed, Call}
use thunder_sandbox.Operations.Command.Ends.{Ends}
use thunder_sandbox.Operations.Jobs.{
  Output, Request, spec_of_request, get_process, launch_detached_job,
}
use thunder_sandbox.Operations.Jobs.Recovery.{Fatal, Reported, Recovered, get_process-Recovered}
use thunder_sandbox.Operations.Jobs.Launch.{
  Refused, Foreign, Launched, launch_detached_job-Launched,
}
use thunder_sandbox.Operations.Exec.{Answers, exec, encoded_char, encoded_size}
use thunder_sandbox.Operations.Exec.Checked.{Rejected, Finished, exec-Finished}

abbrev some_id : Text
some_id = codes "0123456789abcdef0123456789abcdef"

abbrev list_files : Request
list_files = record {
  argv = codes "ls" ∷ [];
  workdir = none;
  user = none;
  env = none;
  stdout = codes "capture";
  stderr = codes "discard";
  retain = false;
}

abbrev just_started : JobStatus
just_started = record { state = JobState.starting; pid = none; returncode = none }

-- one round whose command exits with 0 and prints `j`
abbrev prints : Output → Round (Completed Output)
prints j = record {
  is_closed = λ c. false;
  refusal = none;
  operation = λ c. returned (record { returncode = some (pos 0); stdout = j });
  duration = 40;
  jitter = λ high. 0;
  oversleep = 0;
}

-- one round whose command is not acknowledged
abbrev lost_round : Round (Completed Output)
lost_round = record (prints none) {
  operation = λ c. returned (record { returncode = none; stdout = none });
}

abbrev call_of : List (Round (Completed Output)) → Call (Completed Output)
call_of rs = record { manager = fresh; now = 0; deadline = none; rounds = rs }

abbrev two_tries : Call (Completed Output)
two_tries = call_of (lost_round ∷ prints (some (to_value just_started)) ∷ [])

get_process-Recovered_example :
    Ends
      (Recovered some_id two_tries.rounds two_tries.rounds)
      Fatal
      Reported
      (get_process some_id two_tries two_tries)
get_process-Recovered_example = get_process-Recovered some_id two_tries two_tries

launch_detached_job-Launched_example :
    Ends
      (Launched (spec_of_request some_id none list_files) two_tries.rounds)
      Foreign
      Refused
      (launch_detached_job some_id none list_files two_tries)
launch_detached_job-Launched_example =
    launch_detached_job-Launched some_id none list_files two_tries

abbrev one_exec : Answers
one_exec = record {
  job_id = some_id;
  submission = two_tries;
  connection = record { manager = fresh; now = 0; deadline = none; rounds = [] };
  opens = λ c. returned tt;
}

exec-Finished_example :
    Ends
      (Finished false false list_files one_exec)
      Foreign
      Rejected
      (exec false false list_files one_exec)
exec-Finished_example = exec-Finished false false list_files one_exec

-- an escaped byte is one byte again
sizes_of : encoded_size (0x41 ∷ 0xE9 ∷ 0x20AC ∷ 0x1F600 ∷ 0xDC80 ∷ []) ≡ some 11
unfolding encoded_size encoded_char
sizes_of = refl
