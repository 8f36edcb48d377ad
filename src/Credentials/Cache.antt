-- ===== src/Credentials/Cache.antt =====
-- `SSHCredential`, and `_load`, `_save` and `_expiry` of `CredentialStore`
-- (thunder_sandbox/asynchronous/credentials.py). Times are milliseconds.
pub mod Saved
use thunder_sandbox.Prelude.{
  ℕ, ◌+◌, ◌*◌, Bool, true, false, ◌&&◌, not, Option, none, some, ltb, if◌then◌else◌,
}

abbrev pub renewal_margin : ℕ
renewal_margin = 15 * 60 * 1000

abbrev pub same_burst : ℕ
same_burst = 60000

-- Keys and certificates of AsyncSSH are numbers, and so is the identity of an object. A key whose
-- certificate is `_NO_CERTIFICATE` has `none`.
pub record Credential : Type 0 where
  pub object : ℕ
  pub key : ℕ
  pub certificate : Option ℕ
  pub expires_at : ℕ

-- `self.expires_at - current > RENEWAL_MARGIN_SECONDS`
unfoldable pub is_usable : ℕ → Credential → Bool
is_usable now c = ltb (now + renewal_margin) c.expires_at

abbrev pub usable : ℕ → Option Credential → Bool
usable now none = false
usable now (some c) = is_usable now c

-- what the reading of a file comes to: it cannot be read or decoded, or it holds a value
abbrev pub File : Type 0
File = Option ℕ

-- the files of one workspace: the key is shared, the certificate and its expiry are the workspace's
pub record Disk : Type 0 where
  pub key_file : File
  pub certificate_file : File
  pub meta_file : File

abbrev pub load_certificate : ℕ → ℕ → File → File → Credential
load_certificate object key (some c) (some e) = record {
  object = object;
  key = key;
  certificate = some c;
  expires_at = e;
}
load_certificate object key _ _ = record {
  object = object;
  key = key;
  certificate = none;
  expires_at = 0;
}

abbrev pub load_with : ℕ → Disk → File → Option Credential
load_with object d none = none
load_with object d (some k) = some (load_certificate object k d.certificate_file d.meta_file)

-- `_load`, given the identity of the object that it makes
unfoldable pub load : ℕ → Disk → Option Credential
load object d = load_with object d d.key_file

-- Which calls of the operating system fail while the cache is written, and what the file that was
-- being written then holds.
pub record Writes : Type 0 where
  pub mkdir_fails : Bool
  pub key_fails : Bool
  pub chmod_fails : Bool
  pub certificate_fails : Bool
  pub meta_fails : Bool
  pub left : File

abbrev pub write_meta : Writes → ℕ → Disk → Disk
write_meta w e d =
    if w.meta_fails then record d { meta_file = w.left } else record d { meta_file = some e }

abbrev pub write_certificate : Writes → ℕ → ℕ → Disk → Disk
write_certificate w c e d =
    if w.certificate_fails
    then record d { certificate_file = w.left }
    else write_meta w e (record d { certificate_file = some c })

abbrev pub write_key : Writes → ℕ → ℕ → ℕ → Disk → Disk
write_key w k c e d =
    if w.key_fails
    then record d { key_file = w.left }
    else if w.chmod_fails
    then record d { key_file = some k }
    else write_certificate w c e (record d { key_file = some k })

-- `persisted.is_usable() and expires_at < persisted.expires_at + _SAME_BURST_SECONDS`
abbrev pub is_fresh : ℕ → ℕ → Option Credential → Bool
is_fresh now e none = false
is_fresh now e (some p) = is_usable now p && ltb e (p.expires_at + same_burst)

abbrev pub write : Writes → ℕ → ℕ → ℕ → Bool → Disk → Disk
write w k c e replace_key d =
    if w.mkdir_fails
    then d
    else if replace_key
    then write_key w k c e d
    else write_certificate w c e d

-- `_save`: an `OSError` ends it, and is not passed on
unfoldable pub save : ℕ → Writes → ℕ → ℕ → ℕ → Bool → Bool → Disk → Disk
save now w k c e replace_key replace d =
    if not replace && is_fresh now e (load 0 d) then d else write w k c e replace_key d

-- the member `expires_at` of a reply: no text or an empty one, a text that is no date, or a date
pub data RawExpiry : Type 0 where
  no_text no_date : RawExpiry
  date : ℕ → RawExpiry

-- `_expiry`
abbrev pub expiry : RawExpiry → ℕ
expiry (date n) = n
expiry _ = 0
