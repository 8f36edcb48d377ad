-- ===== src/Client/Upload.antt =====
-- `_upload_image_context` (thunder_sandbox/asynchronous/client.py). Times are milliseconds; the clock of
-- the deadline is the one of the expiry.
pub mod Accepts
pub mod Bounded
use thunder_sandbox.Prelude.{
  ℕ, ◌+◌, Bool, true, false, ◌&&◌, ◌||◌, not, Option, none, some, List, [], ◌∷◌, Text, codes,
  text_eq, leb, min, is_empty, ℤ, pos, negsuc, if◌then◌else◌,
}
use thunder_sandbox.Common.Errors.{
  Error, ErrorKind, thunder_error, plain, Result, ok, err, raise, ◌>>=◌, ◌>>◌,
}
use thunder_sandbox.Common.Json.{Json, Fields, get}
use thunder_sandbox.Common.Task.{Ran, done, threw, waiting}
use thunder_sandbox.Common.Whitespace.{strip}

pub record Target : Type 0 where
  pub host : Text
  pub port : ℕ
  pub host_key : Text
  pub expiry : ℕ

-- `upload[key]`
abbrev pub member : Text → Fields → Result Json
member k fs = elim (get k fs) [ none ↦ raise ErrorKind.connection | some j ↦ ok j ]

abbrev pub invalid_upload {ℓ} : {A : Type ℓ} → Result A
invalid_upload = raise ErrorKind.connection

abbrev pub host_of : Json → Result Text
host_of (Json.str t) = if not (is_empty t) && text_eq t (strip t) then ok t else invalid_upload
host_of _ = invalid_upload

abbrev pub port_of : Json → Result ℕ
port_of (Json.int (pos n)) = if leb 1 n && leb n 65535 then ok n else invalid_upload
port_of _ = invalid_upload

-- `value != literal` raises
abbrev pub exactly : Text → Json → Result (Unit {0})
exactly t (Json.str u) = if text_eq u t then ok tt else invalid_upload
exactly t _ = invalid_upload

abbrev pub text_of : Json → Result Text
text_of (Json.str t) = ok t
text_of _ = invalid_upload

abbrev pub or_invalid {ℓ} : {A : Type ℓ} → Option A → Result A
or_invalid none = invalid_upload
or_invalid (some a) = ok a

-- What the libraries make of texts: the time of a date with a time zone, and the canonical text of a
-- public key.
module _ (date_of : Text → Option ℕ) (canonical : Text → Option Text) where
  abbrev pub key_of : Text → Result Text
  key_of t = or_invalid (canonical t) >>= λ c. if text_eq c (strip t) then ok c else invalid_upload

  -- the checks of the reply, in their order
  unfoldable pub upload_target : Fields → Result Target
  upload_target fs = do
    host ← member (codes "host") fs
    port ← member (codes "port") fs
    username ← member (codes "username") fs
    path ← member (codes "path") fs
    host_public_key ← member (codes "host_public_key") fs
    expires_at ← member (codes "expires_at") fs
    h ← host_of host
    p ← port_of port
    exactly (codes "image-upload") username
    exactly (codes "/build-context.tar") path
    k ← text_of host_public_key
    d ← text_of expires_at
    e ← or_invalid (date_of d)
    c ← key_of k
    ok (record { host = h; port = p; host_key = c; expiry = e })

-- what one transfer comes to
pub data Transfer : Type 0 where
  sent timed_out : Transfer
  -- permission denied, a host key that is not verifiable, or an error of SFTP
  rejected : Transfer
  -- another error of the operating system or of AsyncSSH
  broken : Transfer
  other : Error → Transfer

-- a transfer, how long it takes, and how much longer than asked the sleep after it takes
pub record Round : Type 0 where
  pub transfer : Transfer
  pub took : ℕ
  pub oversleep : ℕ

-- the earlier of the upload's expiry and the deadline
abbrev pub limit : ℕ → Option ℕ → ℕ
limit expiry none = expiry
limit expiry (some d) = min expiry d

abbrev pub fails {ℓ} : {A : Type ℓ} → ErrorKind → Ran A
fails k = threw (thunder_error (plain k))

-- after a broken transfer that ended at the time `now`
abbrev pub retry : ℕ → ℕ → ℕ → (ℕ → Ran (Unit {0})) → Ran (Unit {0})
retry l now oversleep k =
    if leb l (now + 1000) then fails ErrorKind.connection else k (now + 1000 + oversleep)

abbrev pub after_transfer : ℕ → Transfer → ℕ → ℕ → (ℕ → Ran (Unit {0})) → Ran (Unit {0})
after_transfer l sent now oversleep k = done tt
after_transfer l timed_out now oversleep k = fails ErrorKind.sandbox_timeout
after_transfer l rejected now oversleep k = fails ErrorKind.connection
after_transfer l broken now oversleep k = retry l now oversleep k
after_transfer l (other e) now oversleep k = threw e

-- the loop, at the time `now`
unfoldable pub send : ℕ → List Round → ℕ → Ran (Unit {0})
send l [] now = waiting
send l (r ∷ rs) now =
    let rest = send l rs in
    if leb l now
    then fails ErrorKind.sandbox_timeout
    else after_transfer l r.transfer (now + r.took) r.oversleep rest

-- `_upload_image_context`
unfoldable pub upload_image_context :
    (Text → Option ℕ) → (Text → Option Text) → Option ℕ → Fields → List Round → ℕ → Ran (Unit {0})
upload_image_context date_of canonical deadline fs rs now =
    elim (upload_target date_of canonical fs) [
      | ok t ↦ send (limit t.expiry deadline) rs now
      | err e ↦ threw e
    ]
