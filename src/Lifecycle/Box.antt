-- ===== src/Lifecycle/Box.antt =====
-- What changes of a `Sandbox` while it starts and stops (thunder_sandbox/asynchronous/sandbox.py), and
-- its status (thunder_sandbox/_common/types.py). Times are milliseconds.
use thunder_sandbox.Prelude.{ℕ, ◌+◌, Bool, true, false, Text, codes, text_eq, if◌then◌else◌}
use thunder_sandbox.Common.Errors.{Error, ErrorKind, thunder_error, Result, ok, err}

pub data SandboxStatus : Type 0 where
  created ready finished failed unknown : SandboxStatus

-- `SandboxStatus(text)`; a text that is no member's value is `UNKNOWN`
unfoldable pub status_of : Text → SandboxStatus
status_of t =
    if text_eq t (codes "created")
    then created
    else if text_eq t (codes "ready")
    then ready
    else if text_eq t (codes "finished")
    then finished
    else if text_eq t (codes "failed")
    then failed
    else unknown

abbrev pub is_live : SandboxStatus → Bool
is_live created = true
is_live ready = true
is_live _ = false

abbrev pub is_final : SandboxStatus → Bool
is_final finished = true
is_final failed = true
is_final _ = false

abbrev pub is_created : SandboxStatus → Bool
is_created created = true
is_created _ = false

-- `wait_available` is the client's `_wait_endpoint_available`, `now` the monotonic clock. `stops`
-- counts the requests to stop that were answered with success: one that took effect while its reply was
-- lost is not counted.
pub record Box : Type 0 where
  pub status : SandboxStatus
  pub wait_available : Bool
  pub now : ℕ
  pub stops : ℕ
  pub connection_closed : Bool
  pub client_closed : Bool

-- what a request comes to, should it be sent, and how long it takes
pub record Request {ℓ} (A : Type ℓ) : Type ℓ where
  pub reply : Result A
  pub took : ℕ

abbrev pub later : ℕ → Box → Box
later t b = record b { now = b.now + t }

abbrev pub update : Result SandboxStatus → Box → Result (Unit {0}) × Box
update (ok s) b = (ok tt, record b { status = s })
update (err e) b = (err e, b)

-- `refresh`
unfoldable pub refresh : Request SandboxStatus → Box → Result (Unit {0}) × Box
refresh q b = update q.reply (later q.took b)

abbrev pub is_not_found : Error → Bool
is_not_found (thunder_error e) = elim e.kind [ ErrorKind.not_found ↦ true | _ ↦ false ]
is_not_found _ = false

abbrev pub forget_endpoint : Result (Unit {0}) × Box → Result (Unit {0}) × Box
forget_endpoint (ok u, b) = (ok tt, record b { wait_available = false })
forget_endpoint (err e, b) = (err e, b)

abbrev pub fall_back : Request SandboxStatus → Result (Unit {0}) × Box → Result (Unit {0}) × Box
fall_back read (ok u, b) = (ok tt, b)
fall_back read (err e, b) = if is_not_found e then forget_endpoint (refresh read b) else (err e, b)

-- `_read_startup_state`: the wait request, or a plain read where the API does not offer it
unfoldable pub read_startup_state :
    Request SandboxStatus → Request SandboxStatus → Box → Result (Unit {0}) × Box
unfolding refresh
read_startup_state wait read b =
    if b.wait_available then fall_back read (refresh wait b) else refresh read b
