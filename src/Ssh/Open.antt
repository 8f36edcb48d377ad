-- ===== src/Ssh/Open.antt =====
-- `_open_connection` and the pinned host keys (thunder_sandbox/asynchronous/sandbox.py).
pub mod Trust
use thunder_sandbox.Prelude.{
  ℕ, ◌+◌, Bool, true, false, Option, none, some, List, [], ◌∷◌, if◌then◌else◌,
}
use thunder_sandbox.Common.Errors.{Error, ErrorKind, thunder_error, plain, Result, ok, err}
use thunder_sandbox.Ssh.Manager.{SshError, Reply, returned, raised}
use thunder_sandbox.Credentials.Cache.{Credential}
use thunder_sandbox.Credentials.Store.{Store, ensure, renew}
use thunder_sandbox.Credentials.Store

-- The credentials, the host key that is remembered for the sandbox, the credentials that connections
-- were tried with, the latest first, and how many connections have been opened and closed again here.
pub record Host : Type 0 where
  pub store : Store
  pub pinned : Option ℕ
  pub tried : List Credential
  pub closed : ℕ

-- How an opening ends: with the host key of the connection, with an exception of AsyncSSH, or with
-- another one.
pub data Opened : Type 0 where
  connection : ℕ → Opened
  ssh_failure : SshError → Opened
  failure : Error → Opened

-- what `asyncssh.connect` answers, given the host key that is trusted, if there is one: the host key
-- of the connection, or an exception
abbrev pub Server : Type 0
Server = Option ℕ → Credential → Reply ℕ

-- What an opening meets: whether the sandbox has SSH details, the answers for the credential and for
-- its renewal, the server then, and whether the host key of a connection can be remembered.
pub record Answers : Type 0 where
  pub has_ssh : Bool
  pub ensuring : Store.Answers
  pub first : Server
  pub renewing : Store.Answers
  pub second : Server
  pub remember : ℕ → Result ℕ

-- `self._open(ssh, credential, known_hosts)`
abbrev pub dial : Server → Credential → Host → Reply ℕ × Host
dial server c h = (server h.pinned c, record h { tried = c ∷ h.tried })

abbrev pub remembered : Result ℕ → ℕ → Host → Opened × Host
remembered (ok k) key h = (connection key, record h { pinned = some k })
remembered (err e) key h = (failure e, record h { closed = h.closed + 1 })

-- the host key is remembered if none was; if it cannot be, the connection is closed
abbrev pub pin : Answers → Option ℕ → ℕ → Host → Opened × Host
pin a none key h = remembered (a.remember key) key h
pin a (some k) key h = (connection key, h)

abbrev pub accept : Answers → Reply ℕ × Host → Opened × Host
accept a (returned key, h) = pin a h.pinned key h
accept a (raised e, h) = (ssh_failure e, h)

abbrev pub with_renewed : Answers → Result Credential × Store → Host → Opened × Host
with_renewed a (err e, s) h = (failure e, record h { store = s })
with_renewed a (ok c, s) h = accept a (dial a.second c (record h { store = s }))

-- the `except asyncssh.PermissionDenied` clause
abbrev pub after_dial : Answers → Credential → Reply ℕ × Host → Opened × Host
after_dial a c (raised SshError.permission_denied, h) =
    with_renewed a (renew a.renewing (some c) h.store) h
after_dial a c (r, h) = accept a (r, h)

abbrev pub with_credential : Answers → Result Credential × Store → Host → Opened × Host
with_credential a (err e, s) h = (failure e, record h { store = s })
with_credential a (ok c, s) h = after_dial a c (dial a.first c (record h { store = s }))

-- `_open_connection`
unfoldable pub open_connection : Answers → Host → Opened × Host
open_connection a h =
    if a.has_ssh
    then with_credential a (ensure a.ensuring h.store) h
    else (failure (thunder_error (plain ErrorKind.sandbox_failed)), h)
