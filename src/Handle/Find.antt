-- ===== src/Handle/Find.antt =====
-- `from_id` and `from_name` (thunder_sandbox/asynchronous/sandbox.py).
pub mod Unique
use thunder_sandbox.Prelude.{
  Bool, true, false, Option, none, some, List, [], ◌∷◌, Text, text_eq, if◌then◌else◌,
}
use thunder_sandbox.Common.Errors.{Error, ErrorKind, thunder_error, plain, Result, ok, err}
use thunder_sandbox.Common.Json.{Fields}
use thunder_sandbox.Common.Task.{Ran, done, threw, waiting}
use thunder_sandbox.Handle.Info.{Language, SandboxInfo, Hosts, info_from_response}
use thunder_sandbox.Handle.Listing.{Listed, list_sandboxes}

-- a handle, and whether it owns its client
pub record Sandbox : Type 0 where
  pub info : SandboxInfo
  pub owns_client : Bool

-- how a call ended, and whether it closed the client
pub record Ended : Type 0 where
  pub result : Ran Sandbox
  pub closed : Bool

-- `except BaseException: if owns_client: await client.close(); raise`
abbrev pub release : Bool → Ran SandboxInfo → Ended
release owns (done i) = record {
  result = done (record { info = i; owns_client = owns });
  closed = false;
}
release owns (threw e) = record { result = threw e; closed = owns }
release owns waiting = record { result = waiting; closed = false }

abbrev pub ran {ℓ} : {A : Type ℓ} → Result A → Ran A
ran (ok a) = done a
ran (err e) = threw e

abbrev pub fails {ℓ} : {A : Type ℓ} → ErrorKind → Ran A
fails k = threw (thunder_error (plain k))

-- the sandboxes of a name
abbrev pub named : Text → List SandboxInfo → List SandboxInfo
named name [] = []
named name (i ∷ is) = let rest = named name is in if text_eq i.name name then i ∷ rest else rest

-- the one match
abbrev pub only : List SandboxInfo → Ran SandboxInfo
only [] = fails ErrorKind.not_found
only (i ∷ []) = done i
only (i ∷ j ∷ is) = fails ErrorKind.conflict

abbrev pub after_listing : Text → Ran (Unit {0}) → List SandboxInfo → Ran SandboxInfo
after_listing name (done u) is = only (named name is)
after_listing name (threw e) is = threw e
after_listing name waiting is = waiting

module _ (py : Language) where
  abbrev pub described_by : Result Fields → Hosts → Result SandboxInfo × Hosts
  described_by (err e) hosts = (err e, hosts)
  described_by (ok fs) hosts = info_from_response py fs hosts

  -- `from_id`: the reply to the request for the sandbox
  unfoldable pub from_id : Bool → Result Fields → Hosts → Ended × Hosts
  from_id owns reply hosts =
      let (read, pinned) = described_by reply hosts in (release owns (ran read), pinned)

  -- `from_name`: the workspace, once it is resolved or is not, and the replies to the requests for
  -- pages
  unfoldable pub from_name :
      Text → Bool → Result Text → List (Result Fields) → Hosts → Ended × Hosts
  from_name name owns workspace replies hosts =
      let l = list_sandboxes py workspace replies hosts in
      (release owns (after_listing name l.ended l.yielded), l.hosts)
