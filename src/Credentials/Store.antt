-- ===== src/Credentials/Store.antt =====
-- `CredentialStore` (thunder_sandbox/asynchronous/credentials.py): `ensure`, `renew` and `_mint`.
pub mod Ends
pub mod Calls
pub mod Identity
pub mod Renewal
use thunder_sandbox.Prelude.{
  ℕ, ◌+◌, ◌==◌, Bool, true, false, ◌&&◌, not, Option, none, some, Text, codes, text_eq,
  if◌then◌else◌,
}
use thunder_sandbox.Common.Errors.{Error, ErrorKind, thunder_error, Result, ok, err, raise}
use thunder_sandbox.Credentials.Cache.{
  Credential, is_usable, Disk, load, Writes, save, RawExpiry, expiry,
}

-- `made` counts the credential objects that have been made, and is the identity of the next one;
-- `requests` counts the certificates that the API was asked for.
pub record Store : Type 0 where
  pub current : Option Credential
  pub disk : Disk
  pub made : ℕ
  pub requests : ℕ

abbrev pub fresh_store : Disk → Store
fresh_store d = record { current = none; disk = d; made = 0; requests = 0 }

-- the text `str(response.get("ssh_certificate", "")).strip()`: empty, no certificate, or one
pub data Line : Type 0 where
  empty unusable : Line
  certified : ℕ → Line

pub record Reply : Type 0 where
  pub line : Line
  pub expires_at : RawExpiry

-- What a call meets: the time, what the tasks that had the lock before it have done to the store, the time then, the
-- key that AsyncSSH would generate, the reply of the API, what other processes do to the files until
-- it comes, the time at last, and the calls that write the cache.
pub record Answers : Type 0 where
  pub asked_at : ℕ
  pub waited : Store → Store
  pub now : ℕ
  pub generated : ℕ
  pub reply : Result Reply
  pub others : Disk → Disk
  pub then_now : ℕ
  pub writes : Writes

abbrev pub is_forbidden : Option Text → Bool
is_forbidden none = false
is_forbidden (some c) = text_eq c (codes "forbidden")

-- the `except AuthenticationError` clause: the error that replaces it has no hint when to retry
unfoldable pub explain : Error → Error
explain (thunder_error e) = elim e.kind [
  | ErrorKind.authentication ↦
      if is_forbidden e.code
      then thunder_error (record e { retry_after = none })
      else thunder_error e
  | _ ↦ thunder_error e
]
explain e = e

abbrev pub chosen_key : Option Credential → ℕ → ℕ
chosen_key none generated = generated
chosen_key (some c) generated = c.key

abbrev pub is_absent : Option Credential → Bool
is_absent none = true
is_absent (some c) = false

-- the certificate has come: it is cached, and held
abbrev pub adopt : Answers → Option Credential → Bool → ℕ → ℕ → Store → Result Credential × Store
adopt a reuse replace c e s =
    let k = chosen_key reuse a.generated in
    let made : Credential = record {
      object = s.made;
      key = k;
      certificate = some c;
      expires_at = e;
    } in
    (
      ok made,
      record s {
        current = some made;
        disk = save a.then_now a.writes k c e (is_absent reuse) replace s.disk;
        made = s.made + 1;
      },
    )

abbrev pub certify :
    Answers → Option Credential → Bool → Line → ℕ → Store → Result Credential × Store
certify a reuse replace empty e s = (raise ErrorKind.sandbox, s)
certify a reuse replace unusable e s = (raise ErrorKind.sandbox, s)
certify a reuse replace (certified c) e s = adopt a reuse replace c e s

abbrev pub receive :
    Answers → Option Credential → Bool → Result Reply → Store → Result Credential × Store
receive a reuse replace (err e) s = (err (explain e), s)
receive a reuse replace (ok r) s = certify a reuse replace r.line (expiry r.expires_at) s

-- `self._current = await self._mint(client, reuse=reuse, replace=replace)`
unfoldable pub mint : Answers → Option Credential → Bool → Store → Result Credential × Store
mint a reuse replace s =
    receive a reuse replace a.reply (record s { requests = s.requests + 1; disk = a.others s.disk })

-- the object that `_load` makes, if the key can be read
abbrev pub counted : Option Credential → Store → Option Credential × Store
counted none s = (none, s)
counted (some c) s = (some c, record s { made = s.made + 1 })

abbrev pub loaded : Store → Option Credential × Store
loaded s = counted (load s.made s.disk) s

abbrev pub from_cache : Answers → Option Credential × Store → Result Credential × Store
from_cache a (none, s) = mint a none false s
from_cache a (some c, s) =
    if is_usable a.now c then (ok c, record s { current = some c }) else mint a (some c) false s

abbrev pub or_else :
    ℕ → Option Credential → Store → (Store → Result Credential × Store) → Result Credential × Store
or_else now none s k = k s
or_else now (some c) s k = if is_usable now c then (ok c, s) else k s

-- the part of `ensure` that holds the lock
unfoldable pub ensure_locked : Answers → Store → Result Credential × Store
ensure_locked a s = or_else a.now s.current s λ t. from_cache a (loaded t)

unfoldable pub ensure : Answers → Store → Result Credential × Store
ensure a s = or_else a.asked_at s.current s λ t. ensure_locked a (a.waited t)

-- the current credential, if another task has replaced the rejected one by one that is usable
unfoldable pub replacement : ℕ → Option Credential → Option Credential → Option Credential
replacement now none current = none
replacement now (some r) none = none
replacement now (some r) (some c) =
    if not (c.object == r.object) && is_usable now c then some c else none

abbrev pub remint : Answers → Option Credential × Store → Result Credential × Store
remint a (reuse, s) = mint a reuse true s

abbrev pub replaced : Option Credential → Answers → Store → Result Credential × Store
replaced (some c) a s = (ok c, s)
replaced none a s = remint a (loaded s)

-- the part of `renew` that holds the lock
unfoldable pub renew_locked : Answers → Option Credential → Store → Result Credential × Store
renew_locked a rejected s = replaced (replacement a.now rejected s.current) a s

-- `renew`
unfoldable pub renew : Answers → Option Credential → Store → Result Credential × Store
renew a rejected s = renew_locked a rejected (a.waited s)
