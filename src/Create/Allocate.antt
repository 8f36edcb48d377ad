-- ===== src/Create/Allocate.antt =====
-- `Sandbox.create` (thunder_sandbox/asynchronous/sandbox.py), from its checks to the handle.
pub mod Entry
pub mod Fate
use thunder_sandbox.Prelude.{
  ℕ, ◌+◌, ◌*◌, Bool, true, false, ◌||◌, not, Option, none, some, List, [], ◌∷◌, Text, codes,
  text_eq, is_empty, ℤ, pos, negsuc, if◌then◌else◌,
}
use thunder_sandbox.Common.Errors.{
  Error, ErrorKind, thunder_error, plain, Result, ok, err, raise, ◌>>=◌, ◌>>◌,
}
use thunder_sandbox.Common.Task.{Ran, done, threw, waiting, Task}
use thunder_sandbox.Lifecycle.Box.{SandboxStatus, Box, Request, later}
use thunder_sandbox.Lifecycle.Poll.{outage_grace}
use thunder_sandbox.Lifecycle.Startup.{Round}
use thunder_sandbox.Lifecycle.Waiting.{wait_until_ready}
use thunder_sandbox.Lifecycle.Terminate.{StopRound, stop_sandbox}
use thunder_sandbox.Create.Options.{Argument, Options, validate_create_options}

-- what is read of the description of a sandbox
pub record Info : Type 0 where
  pub status : SandboxStatus
  pub workspace_id : Text

-- What a call meets: the client's configuration, should there be no client, the workspace and the
-- image once they are resolved, the replies to the start request (the ID, which may be empty) and to
-- the first read, the waiting for readiness, the launch of the command, and the stop requests.
pub record Answers : Type 0 where
  pub configuration : Result (Unit {0})
  pub workspace : Result Text
  pub image : Result (Unit {0})
  pub started : Request Text
  pub info : Request Info
  pub startup : List Round
  pub launch : Result (Unit {0})
  pub stops : List StopRound

-- the caller's part: the options, whether there is a command, and whether there is a client
pub record Asked : Type 0 where
  pub options : Options
  pub has_command : Bool
  pub has_client : Bool

abbrev pub main_workspace : Text
main_workspace = codes "main"

-- `client or Client.from_cli()`
abbrev pub client_of : Bool → Answers → Result (Unit {0})
client_of has_client a = if has_client then ok tt else a.configuration

abbrev pub resolve_image : Option (Argument Text) → Answers → Result (Unit {0})
resolve_image none a = ok tt
resolve_image (some i) a = a.image

-- the first `try` block: the workspace, and the image if there is one
unfoldable pub prepare : Asked → Answers → Result Text
prepare q a = do w ← a.workspace; resolve_image q.options.image a; ok w

-- `if owns_client: await resolved_client.close()`
abbrev pub release : Bool → Box → Box
release owns b = record b { client_closed = b.client_closed || owns }

-- `None if timeout is None else time.monotonic() + timeout`; a timeout counts seconds
abbrev pub deadline_of : Option ℤ → ℕ → Option ℕ
deadline_of none now = none
deadline_of (some (pos n)) now = some (now + n * 1000)
deadline_of (some (negsuc n)) now = some now

-- the check that the sandbox is where the caller asked for it
abbrev pub in_workspace : Text → Text → Bool
in_workspace wanted found = text_eq wanted main_workspace || text_eq found wanted

abbrev pub launch_after : Result (Unit {0}) → Ran (Unit {0}) × Box → Ran (Unit {0}) × Box
launch_after (ok u) (done v, b) = (done tt, b)
launch_after (err e) (done v, b) = (threw e, b)
launch_after l (threw e, b) = (threw e, b)
launch_after l (waiting, b) = (waiting, b)

-- `if args:`
unfoldable pub start_command : Asked → Answers → Task Box (Unit {0})
start_command q a b =
    if q.has_command
    then launch_after a.launch (wait_until_ready (deadline_of q.options.timeout b.now) a.startup b)
    else (done tt, b)

abbrev pub settle : Asked → Answers → Text → Result Info → Box → Ran (Unit {0}) × Box
settle q a wanted (err e) b = (threw e, b)
settle q a wanted (ok i) b =
    if in_workspace wanted i.workspace_id
    then start_command q a (record b { status = i.status })
    else (threw (thunder_error (plain ErrorKind.sandbox_failed)), record b { status = i.status })

-- what follows the start request, up to the handle
unfoldable pub finish : Asked → Answers → Text → Task Box (Unit {0})
finish q a wanted b = settle q a wanted a.info.reply (later a.info.took b)

-- the `except` clause that stops a sandbox which would not be returned; what the stop raises is
-- suppressed
abbrev pub after_cleanup : Bool → Error → Ran (Unit {0}) × Box → Ran Text × Box
after_cleanup owns e (done u, b) = (threw e, release owns b)
after_cleanup owns e (threw f, b) = (threw e, release owns b)
after_cleanup owns e (waiting, b) = (waiting, b)

unfoldable pub clean_up : Bool → Answers → Error → Box → Ran Text × Box
clean_up owns a e b = after_cleanup owns e (stop_sandbox (some (b.now + outage_grace)) a.stops b)

abbrev pub or_clean_up : Bool → Answers → Text → Ran (Unit {0}) × Box → Ran Text × Box
or_clean_up owns a id (done u, b) = (done id, b)
or_clean_up owns a id (threw e, b) = clean_up owns a e b
or_clean_up owns a id (waiting, b) = (waiting, b)

abbrev pub with_id : Asked → Answers → Text → Text → Box → Ran Text × Box
with_id q a wanted id b =
    if is_empty id
    then (threw (thunder_error (plain ErrorKind.sandbox_failed)), release (not q.has_client) b)
    else or_clean_up (not q.has_client) a id (finish q a wanted b)

abbrev pub after_start : Asked → Answers → Text → Result Text → Box → Ran Text × Box
after_start q a wanted (err e) b = (threw e, release (not q.has_client) b)
after_start q a wanted (ok id) b = with_id q a wanted id b

abbrev pub start : Asked → Answers → Result Text → Box → Ran Text × Box
start q a (err e) b = (threw e, release (not q.has_client) b)
start q a (ok wanted) b = after_start q a wanted a.started.reply (later a.started.took b)

abbrev pub with_client : Asked → Answers → Result (Unit {0}) → Box → Ran Text × Box
with_client q a (err e) b = (threw e, b)
with_client q a (ok u) b = start q a (prepare q a) b

-- the checks of the options, and the client
abbrev pub entry : Asked → Answers → Result (Unit {0})
entry q a = validate_create_options q.options >> client_of q.has_client a

-- `create`: the ID of the sandbox whose handle it returns
unfoldable pub create : Asked → Answers → Task Box Text
create q a b = with_client q a (entry q a) b
