-- ===== src/Examples/Create.antt =====
-- Options and network policies of `Sandbox.create` (thunder_sandbox/asynchronous/sandbox.py).
use thunder_sandbox.Prelude.{◌≡◌, refl, true, false, none, some, [], ◌∷◌, codes, pos}
use thunder_sandbox.Common.Errors.{ok, err, ◌>>=◌}
use thunder_sandbox.Create.Options.{
  GpuType, proper, Options, invalid, validate_network_policy_options, validate_create_options,
  restricted, network_policy_request,
}
use thunder_sandbox.Common.Errors.{ErrorKind, thunder_error, plain}
use thunder_sandbox.Common.Task.{threw}
use thunder_sandbox.Lifecycle.Box.{created, Box}
use thunder_sandbox.Lifecycle.Terminate.{stop_sandbox, poll_stop}
use thunder_sandbox.Create.Allocate.{Answers, Asked, prepare, finish, clean_up, create}
use thunder_sandbox.Create.Allocate.Fate.{Fate}

abbrev two_gpus : Options
two_gpus = record {
  timeout = some (pos 600);
  queue = proper false;
  gpu_type = some (proper GpuType.h100);
  gpu_count = some (pos 2);
  image = none;
  block_network = false;
  outbound_cidr_allowlist = some (codes "10.0.0.0/8" ∷ []);
  outbound_domain_allowlist = none;
}

two_gpus_accepted : validate_create_options two_gpus ≡ ok tt
unfolding validate_create_options validate_network_policy_options ◌>>=◌
two_gpus_accepted = refl

three_gpus_refused :
    validate_create_options (record two_gpus { gpu_count = some (pos 3) }) ≡ err invalid
unfolding validate_create_options validate_network_policy_options ◌>>=◌
three_gpus_refused = refl

blocked_with_list : validate_create_options (record two_gpus { block_network = true }) ≡ err invalid
unfolding validate_create_options validate_network_policy_options ◌>>=◌
blocked_with_list = refl

-- an empty allowlist restricts, too
empty_list_restricts : (network_policy_request false (some []) none).internet_access ≡ restricted
unfolding network_policy_request
empty_list_restricts = refl

abbrev before_creation : Box
before_creation = record {
  status = created;
  wait_available = true;
  now = 0;
  stops = 0;
  connection_closed = false;
  client_closed = false;
}

abbrev no_client : Asked
no_client = record { options = two_gpus; has_command = false; has_client = false }

-- the sandbox starts in another workspace than the one that was asked for
abbrev misplaced : Answers
misplaced = record {
  configuration = ok tt;
  workspace = ok (codes "ws-1");
  image = ok tt;
  started = record { reply = ok (codes "sb"); took = 10 };
  info = record { reply = ok (record { status = created; workspace_id = codes "main" }); took = 5 };
  startup = [];
  launch = ok tt;
  stops =
      record {
        request = record { reply = ok tt; took = 7 };
        pause = record { jitter = λ high. 0; oversleep = 0 };
      }
      ∷ [];
}

misplaced_stopped : create no_client misplaced before_creation ≡ (
  threw (thunder_error (plain ErrorKind.sandbox_failed)),
  record before_creation { now = 22; stops = 1; client_closed = true },
)
unfolding create prepare finish clean_up stop_sandbox poll_stop validate_create_options
    validate_network_policy_options ◌>>=◌
misplaced_stopped = refl
