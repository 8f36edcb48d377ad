-- ===== src/Ssh/Manager.antt =====
-- `SSHConnectionManager`: the cached connection (thunder_sandbox/asynchronous/_ssh.py).
pub mod Soundness
use thunder_sandbox.Prelude.{
  ℕ, ◌+◌, Bool, true, false, Option, none, some, List, [], ◌∷◌, ◌==◌, if◌then◌else◌,
}
use thunder_sandbox.Common.Errors.{ErrorKind}

-- what `open_connection` or an operation may raise, as far as the retry policy looks
pub data SshError : Type 0 where
  host_key_not_verifiable permission_denied : SshError
  os_error ssh_error retryable_operation : SshError
  cancelled : SshError
  thunder : ErrorKind → SshError
  other : SshError

-- `is_transient_ssh_error`; a `SandboxTimeoutError` is a `TimeoutError`, and so an `OSError`
unfoldable pub is_transient : SshError → Bool
is_transient SshError.host_key_not_verifiable = false
is_transient SshError.permission_denied = false
is_transient SshError.os_error = true
is_transient SshError.ssh_error = true
is_transient SshError.retryable_operation = true
is_transient (SshError.thunder ErrorKind.sandbox_timeout) = true
is_transient _ = false

-- Connections are told apart by number, in the order in which they were opened: `opened` is how
-- many there were, and `shut` are those that `close()` was called on.
pub record Manager : Type 0 where
  pub cached : Option ℕ
  pub closed : Bool
  pub opened : ℕ
  pub shut : List ℕ

abbrev pub fresh : Manager
fresh = record { cached = none; closed = false; opened = 0; shut = [] }

pub data Reply {ℓ} (A : Type ℓ) : Type ℓ where
  returned : A → Reply A
  raised : SshError → Reply A

-- the cached connection, if it is there and `is_closed()` denies
abbrev healthy : (ℕ → Bool) → Option ℕ → Option ℕ
healthy is_closed none = none
healthy is_closed (some c) = if is_closed c then none else some c

-- `connection = await self._open_connection()`
abbrev open_new : Option SshError → Manager → Reply ℕ × Manager
open_new (some e) m = (raised e, m)
open_new none m = (returned m.opened, record m { cached = some m.opened; opened = m.opened + 1 })

abbrev reuse_or_open : Option SshError → Option ℕ → Manager → Reply ℕ × Manager
reuse_or_open refusal (some c) m = (returned c, m)
reuse_or_open refusal none m = open_new refusal m

-- `get`; `refusal` is what `_open_connection` raises, should it be called and raise
unfoldable pub get : (ℕ → Bool) → Option SshError → Manager → Reply ℕ × Manager
get is_closed refusal m =
    if m.closed
    then (raised (SshError.thunder ErrorKind.connection), m)
    else reuse_or_open refusal (healthy is_closed m.cached) m

abbrev evict : ℕ → Option ℕ → Option ℕ
evict c none = none
evict c (some d) = if d == c then none else some d

-- `discard`
unfoldable pub discard : ℕ → Manager → Manager
discard c m = record m { cached = evict c m.cached; shut = c ∷ m.shut }

abbrev shut_cached : Option ℕ → List ℕ → List ℕ
shut_cached none cs = cs
shut_cached (some c) cs = c ∷ cs

-- `close`
unfoldable pub close : Manager → Manager
close m =
    if m.closed
    then m
    else record m { cached = none; closed = true; shut = shut_cached m.cached m.shut }
