-- ===== src/Lib.antt =====
-- Verification of the Thunder Sandbox client for Python.
--
-- The client creates short-lived sandboxes over an HTTP API and reaches them over SSH. A command is
-- staged in the sandbox as a durable job, whose status and output are files; a process handle reads
-- them and reconnects whenever the SSH connection is lost. The development models the parts that
-- carry this out, and proves what makes each correct.
--
-- Parts, with the code that each models:
-- - Common.Errors: thunder_sandbox/_common/exceptions.py and the Python exceptions that matter.
--   Common.Json: the values of Python's `json` module. Common.Task: coroutines over a shared state.
--   Common.Sort: `sorted` by the order of `str`, which `sort_keys` uses, too.
-- - Jobs: thunder_sandbox/asynchronous/_jobs.py. Jobs.State has `JobState`, `_TRANSITIONS` and
--   `can_transition`; Jobs.Status `JobStatus` (`make` is `__post_init__`, `to_value` is the object
--   that `to_json` dumps, `from_json` decodes what `json.loads` returns); Jobs.Paths
--   `validate_job_id` and `RemoteJobPaths`; Jobs.Spec `JobSpec` and its checks, Jobs.Spec.Decode its
--   `from_json`.
-- - Shell: `_remote_command` of thunder_sandbox/asynchronous/sandbox.py (Shell.Command) and
--   `shlex.quote` (Shell.Quote). Shell.Reader describes how a POSIX shell divides a line into words,
--   and Shell.EnvOrder how `env` reads its arguments; both are independent of the code.
-- - Ssh: `SSHConnectionManager` of thunder_sandbox/asynchronous/_ssh.py. Ssh.Manager has the cached
--   connection with `get`, `discard` and `close`, Ssh.Retry the loop of `run`: `attempt` is its `try`
--   block, `charge` the retry budget, `back_off` the pause. Ssh.Open is `_open_connection` of
--   thunder_sandbox/asynchronous/sandbox.py.
-- - Process: the durable branch of `Process` in thunder_sandbox/asynchronous/process.py.
--   Process.Handle has the status (`_refresh_status`, `_record_status`, `_accept_status`),
--   Process.Cleanup waiting and removal (`_wait_durable`, `_maybe_auto_cleanup`, `_cleanup_remote`,
--   `cleanup`), Process.Terminate the escalation of `terminate`, Process.Output the output streams
--   (`_DurableReader`), whose UTF-8 decoder is Process.Output.Utf8. Process.Calls.Sequence has any
--   sequence of calls on one handle.
-- - Lifecycle: how a `Sandbox` of thunder_sandbox/asynchronous/sandbox.py starts and stops.
--   Lifecycle.Box has its status (thunder_sandbox/_common/types.py) and `_read_startup_state`,
--   Lifecycle.Poll `_wait_window`, `_sleep_until_next_poll` and the clause for transient faults that
--   the polling loops share, Lifecycle.Startup `_wait_for_startup`, Lifecycle.Waiting `wait` and
--   `wait_until_ready`, Lifecycle.Terminate `_stop_sandbox` and `terminate`. Lifecycle.Streak says,
--   apart from the code, what it is that faults go on without a break.
-- - Create: Create.Options is `_validate_create_options`, `_validate_network_policy_options` and
--   `_network_policy_request` of thunder_sandbox/asynchronous/sandbox.py, the first steps of
--   `Sandbox.create`. An argument that the source tests with `isinstance` is an `Argument`.
--   Create.Body is the body of its request, Create.Allocate the rest of `create`.
-- - Policy: Policy.Update is `_update_network_policy` with `_wait_for_network_policy`, Policy.Decode
--   what they read of a reply. Policy.Update.Verdicts says, apart from the code, what a view of a
--   policy shows of an update.
-- - Transfer: Transfer.Publish is `publish_local_transfer` of
--   thunder_sandbox/asynchronous/_transfer.py, on a file system where every call may fail,
--   Transfer.Path its `parse_transfer_path`.
-- - Client: Client.Response is `_api_error`, `_request_json` and `_request` of
--   thunder_sandbox/asynchronous/client.py from the reply on, Client.ImageWait `_wait_for_image`,
--   Client.Upload `_upload_image_context`, Client.Resolve `resolve_image`, Client.Workspaces
--   `list_workspaces` and `_resolve_workspace`. Common.Whitespace is Python's `str.strip`.
-- - Handle: Handle.Info is `_info_from_response` of thunder_sandbox/asynchronous/sandbox.py, with
--   `GPUType` and `_remember_host_key`, Handle.Listing `list_sandboxes` of
--   thunder_sandbox/asynchronous/client.py, Handle.Find `from_id` and `from_name`.
-- - Image: thunder_sandbox/image.py. Image.Definition is `from_registry` and `from_dockerfile`,
--   Image.Ignore `_DockerIgnore` with `_compile_ignore_pattern`, Image.Context `_context_files`,
--   Image.Archive `_create_canonical_build_context`.
-- - Config: `ClientConfig`, `_read_json` and `_validate_sandbox_name` of
--   thunder_sandbox/_common/config.py; Config.Paths is its `ThunderPaths`.
-- - Credentials: thunder_sandbox/asynchronous/credentials.py. Credentials.Cache has `SSHCredential`,
--   `_load`, `_save` and `_expiry`, Credentials.Store `ensure`, `renew` and `_mint` (`mint` with what
--   follows it), Credentials.Store.Calls any sequence of calls.
-- - Operations: commands and durable jobs of a sandbox, thunder_sandbox/asynchronous/sandbox.py.
--   Operations.Command is `_run_idempotent_command`, Operations.Jobs `_launch_detached_job`,
--   `get_process`, `_read_job_status`, `_read_job_spec`, `_read_job_output`, `_cleanup_job` and
--   `_signal_job`, Operations.Exec `exec` and `_create_process`. The text of a command is not part of
--   them.
-- - Examples: the theorems at concrete inputs, and runs of the modelled code.
--
-- How they interact: a handle reads statuses that Jobs.Status decodes, and compares them by
-- Jobs.State; every operation on the sandbox goes through Ssh.Retry; the commands that it sends are
-- lines of Shell. Client.Resolve has Image.Archive make a build context, Client.Upload
-- send it, and Client.ImageWait wait for the image. Handle.Find
-- searches what Handle.Listing yields, and both read descriptions by Handle.Info, which decodes a
-- policy by Policy.Decode and a status by Lifecycle.Box. Image.Archive packs the files that
-- Image.Context collects by the rules of Image.Ignore.
--
-- Conventions. A text is the list of its code points. Times are milliseconds. Integers of Python are
-- ℤ. What the sandbox, AsyncSSH, the clock and the random jitter answer is an argument of the
-- definitions that use it (`Round`, `Answers`, the replies), and the theorems hold for all answers.
-- A coroutine whose given answers are used up is `waiting`, a retry loop `running`: neither says that
-- it returns. How long a loop waits between two reads of a status is not modelled.
--
-- What Python makes of a value or a text (`str`, `int`, lower and upper case, the NFC form, the
-- reading of dates, of URLs and of regular expressions), and what AsyncSSH makes of a key, are
-- parameters; digests and the format of archives are, too.
--
-- Bounds. `run` starts with a pause of 250 ms that doubles up to 5 s, and gives up when attempts have
-- been failing for 600 s. The pauses of 124 failures add up to that, so that 125 rounds are always
-- enough for attempts that are shorter than the budget. An attempt that fails after the budget or
-- longer begins a new one, as the source intends for large transfers.
--
-- A fetch reads at most 65536 bytes; Process.Output.Completion counts fetches by the bytes of the file,
-- which is more than enough.
--
-- `_wait_for_startup` and `wait` without a deadline have no bound, as in the source: a sandbox may stay
-- queued, or run on. With one, the rounds are bounded by the milliseconds that are left.
--
-- Not modelled: the text of JSON; the shell scripts that run inside the sandbox; messages of
-- exceptions; HTTP itself; uploads, downloads and the other operations of a sandbox; attached output
-- streams, a wrapper of AsyncSSH; the format of archives; prices, which are floats; the synchronous
-- interface, which only wraps the asynchronous one. Coroutines run without an interruption between
-- two awaits that answer at once: the tasks that overlap on a handle are sequences of elementary
-- steps.
pub mod Prelude
pub mod Common
pub mod Jobs
pub mod Shell
pub mod Ssh
pub mod Process
pub mod Lifecycle
pub mod Transfer
pub mod Create
pub mod Credentials
pub mod Operations
pub mod Policy
pub mod Client
pub mod Handle
pub mod Image
pub mod Config
pub mod Examples
