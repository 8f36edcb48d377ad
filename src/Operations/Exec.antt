-- ===== src/Operations/Exec.antt =====
-- `exec` of a sandbox and `_create_process` (thunder_sandbox/asynchronous/sandbox.py).
pub mod Checked
use thunder_sandbox.Prelude.{
  ℕ, ◌+◌, ◌*◌, Bool, true, false, ◌&&◌, ◌||◌, not, Option, none, some, List, [], ◌∷◌, ◌++◌, Text,
  codes, text_eq, has_char, is_empty, ltb, leb, is_some, map, if◌then◌else◌,
}
use thunder_sandbox.Common.Errors.{ErrorKind, value_error}
use thunder_sandbox.Ssh.Manager.{SshError, Reply, returned, raised}
use thunder_sandbox.Ssh.Retry.{run}
use thunder_sandbox.Jobs.Spec.{Env, JobSpec, has_command, env_items, is_output_mode}
use thunder_sandbox.Jobs.Status.{JobStatus}
use thunder_sandbox.Operations.Command.{
  ◌>>=◌, ◌>>◌, Ended, returns, passes, raises, raise_kind, require, Completed, Call, ended,
}
use thunder_sandbox.Operations.Jobs.{
  Output, is_transport, as_connection_error, Request, launch_detached_job,
}

abbrev pub max_argument_bytes : ℕ
max_argument_bytes = 128 * 1024

abbrev pub is_surrogate : ℕ → Bool
is_surrogate c = leb 0xD800 c && leb c 0xDFFF

-- the bytes of a code point as `encode("utf-8", "surrogateescape")` writes it: a byte that was escaped
-- is one again, and no other surrogate can be encoded
unfoldable pub encoded_char : ℕ → Option ℕ
encoded_char c =
    if ltb c 0x80
    then some 1
    else if ltb c 0x800
    then some 2
    else if leb 0xDC80 c && leb c 0xDCFF
    then some 1
    else if is_surrogate c
    then none
    else if ltb c 0x10000
    then some 3
    else some 4

abbrev pub add_size : Option ℕ → Option ℕ → Option ℕ
add_size (some m) (some n) = some (m + n)
add_size _ _ = none

unfoldable pub encoded_size : Text → Option ℕ
encoded_size [] = some 0
encoded_size (c ∷ cs) = add_size (encoded_char c) (encoded_size cs)

-- `f"{k}={v}"`
abbrev pub item_text : Text × Option Text → Text
item_text (k, none) = k ++ (b'=' ∷ codes "None")
item_text (k, some v) = k ++ (b'=' ∷ v)

abbrev pub size_allowed : Option ℕ → Ended (Unit {0})
size_allowed none = raises value_error
size_allowed (some n) = require (ltb n max_argument_bytes) ErrorKind.invalid_request

-- the loop over the arguments and the environment
unfoldable pub check_sizes : List Text → Ended (Unit {0})
check_sizes [] = returns tt
check_sizes (t ∷ ts) = do size_allowed (encoded_size t); check_sizes ts

abbrev pub user_allowed : Bool → Option Text → Ended (Unit {0})
user_allowed image none = returns tt
user_allowed image (some u) = do
  require (not (is_empty u) && not (has_char 0 u)) ErrorKind.invalid_request
  require image ErrorKind.invalid_request

abbrev pub is_capture : Text → Bool
is_capture t = text_eq t (codes "capture")

abbrev pub texts_of : Request → List Text
texts_of q = q.argv ++ map item_text (env_items q.env)

-- the checks of `exec`, in their order; `image` tells whether the sandbox has one
unfoldable pub check_exec : Bool → Bool → Request → Ended (Unit {0})
check_exec image pty q = do
  user_allowed image q.user
  require (has_command q.argv) ErrorKind.invalid_request
  check_sizes (texts_of q)
  require (is_output_mode q.stdout) ErrorKind.invalid_request
  require (is_output_mode q.stderr) ErrorKind.invalid_request
  require (not (pty && (not (is_capture q.stdout) || (not (is_capture q.stderr) || q.retain))))
      ErrorKind.invalid_request

-- a session on a connection, or an exception of AsyncSSH: the connection is then given up
abbrev pub session_or_lost : Reply (Unit {0}) → Ended (Unit {0})
session_or_lost (returned u) = returns tt
session_or_lost (raised e) = if is_transport e then raise_kind ErrorKind.connection else passes e

-- `_create_process`, with the connection that `_connect` returns
unfoldable pub create_process : Call ℕ → (ℕ → Reply (Unit {0})) → Ended (Unit {0})
create_process c opens = do
  connection ← as_connection_error (ended (run c.deadline c.rounds c.manager c.now))
  session_or_lost (opens connection)

pub data Executed : Type 0 where
  durable : JobSpec → JobStatus → Executed
  attached : Executed

abbrev pub container_of : Bool → Option Text
container_of image = if image then some (codes "thunder-sandbox") else none

-- what the calls of one `exec` meet, with the new job's identifier
pub record Answers : Type 0 where
  pub job_id : Text
  pub submission : Call (Completed Output)
  pub connection : Call ℕ
  pub opens : ℕ → Reply (Unit {0})

abbrev pub as_durable : JobSpec × JobStatus → Ended Executed
as_durable (s, t) = returns (durable s t)

-- `exec`, without the handle that it makes of both
unfoldable pub exec : Bool → Bool → Request → Answers → Ended Executed
exec image pty q a = do
  check_exec image pty q
  if pty
      then (do create_process a.connection a.opens; returns attached)
      else (do x ← launch_detached_job a.job_id (container_of image) q a.submission; as_durable x)
