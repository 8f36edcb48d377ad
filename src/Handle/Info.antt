-- ===== src/Handle/Info.antt =====
-- `_info_from_response`, `_datetime`, `_host_key_text` and `_remember_host_key`
-- (thunder_sandbox/asynchronous/sandbox.py), with `GPUType` and `SandboxInfo`
-- (thunder_sandbox/_common/types.py). The paths of the cached credential are not kept.
use thunder_sandbox.Prelude.{
  ℕ, Bool, false, Option, none, some, List, [], ◌∷◌, ◌++◌, Text, codes, text_eq, is_empty, ℤ, pos,
  ◌==◌, if◌then◌else◌,
}
use thunder_sandbox.Common.Errors.{ErrorKind, Result, ok, err, raise, ◌>>=◌}
use thunder_sandbox.Common.Json.{Json, Fields, get, is_truthy}
use thunder_sandbox.Common.Whitespace.{strip}
use thunder_sandbox.Lifecycle.Box.{SandboxStatus, status_of}
use thunder_sandbox.Create.Options.{GpuType}
use thunder_sandbox.Policy.Decode.{NetworkPolicy, policy_from_response, generation_from}

-- What Python and AsyncSSH make of a value: `str`, `int` of a value and of a text, upper case, the
-- time of an ISO date, and the canonical text of a public key.
pub record Language : Type 0 where
  pub str_of : Json → Text
  pub int_of : Json → Result ℤ
  pub upper : Text → Text
  pub date_of : Text → Result ℤ
  pub canonical : Text → Option Text

-- `_REMEMBERED_HOST_KEYS`: the key that was remembered last is the first
abbrev pub Hosts : Type 0
Hosts = List (Text × Text)

pub record Connection : Type 0 where
  pub host : Text
  pub port : ℤ
  pub user : Text

pub record Resources : Type 0 where
  pub cpu : ℤ
  pub memory : ℤ
  pub storage : ℤ
  pub gpu_type : Option GpuType
  pub gpu_count : ℤ

pub record SandboxInfo : Type 0 where
  pub id : Text
  pub name : Text
  pub status : SandboxStatus
  pub resources : Resources
  pub network_policy : NetworkPolicy
  pub network_policy_generation : Option ℕ
  pub desired_network_policy_generation : Option ℕ
  pub queued : Bool
  pub workspace_id : Text
  pub created_at : Option ℤ
  pub expires_at : Option ℤ
  pub ssh : Option Connection
  pub failure_code : Option Text
  pub failure : Option Text
  pub image_id : Option Text

-- the members of an object, or none
abbrev pub object_of : Option Json → Fields
object_of (some (Json.obj fs)) = fs
object_of _ = Fields.done

-- `value is True`
abbrev pub is_true : Option Json → Bool
is_true (some (Json.bool b)) = b
is_true _ = false

-- the text with each `Z` replaced by `+00:00`
abbrev pub replace_z : Text → Text
replace_z [] = []
replace_z (c ∷ cs) = let rest = replace_z cs in if c == 90 then codes "+00:00" ++ rest else c ∷ rest

-- the first name that the text equals
abbrev pub named : List (Text × GpuType) → Text → GpuType → GpuType
named [] t g = g
named ((n, v) ∷ ns) t g = if text_eq n t then v else named ns t g

abbrev pub gpu_values : List (Text × GpuType)
gpu_values =
    (codes "none", GpuType.none_gpu)
    ∷ (codes "A6000", GpuType.a6000)
    ∷ (codes "A100", GpuType.a100)
    ∷ (codes "A100XL", GpuType.a100xl)
    ∷ (codes "H100", GpuType.h100)
    ∷ (codes "unknown", GpuType.unknown)
    ∷ []

-- the values in upper case
abbrev pub gpu_names : List (Text × GpuType)
gpu_names =
    (codes "NONE", GpuType.none_gpu)
    ∷ (codes "A6000", GpuType.a6000)
    ∷ (codes "A100", GpuType.a100)
    ∷ (codes "A100XL", GpuType.a100xl)
    ∷ (codes "H100", GpuType.h100)
    ∷ (codes "UNKNOWN", GpuType.unknown)
    ∷ []

module _ (py : Language) where
  -- `GPUType(text)`
  unfoldable pub gpu_of : Text → GpuType
  gpu_of t = named gpu_values t (named gpu_names (py.upper (strip t)) GpuType.unknown)

  -- `GPUType.NONE` counts as no type
  abbrev pub no_gpu : GpuType → Option GpuType
  no_gpu GpuType.none_gpu = none
  no_gpu g = some g

  -- `str(object.get(key, default))`
  abbrev pub text_or : Text → Text → Fields → Text
  text_or k d fs = elim (get k fs) [ none ↦ d | some j ↦ py.str_of j ]

  -- `str(object[key]) if object.get(key) else None`
  abbrev pub filled_text : Text → Fields → Option Text
  filled_text k fs = if is_truthy (get k fs) then some (text_or k [] fs) else none

  -- `int(str(object.get(key, 0)))`
  abbrev pub number : Text → Fields → Result ℤ
  number k fs = py.int_of (Json.str (text_or k (codes "0") fs))

  abbrev pub gpu_type_of : Fields → Option GpuType
  gpu_type_of spec = elim (filled_text (codes "gpu_type") spec) [
    | none ↦ none
    | some t ↦ no_gpu (gpu_of t)
  ]

  abbrev pub workspace_id_of : Fields → Text
  workspace_id_of fs = elim (filled_text (codes "workspace_id") fs) [
    | none ↦ codes "main"
    | some t ↦ t
  ]

  -- `_datetime` with a value that is given
  abbrev pub given_date : Option ℤ → Json → Result (Option ℤ)
  given_date missing Json.null = ok missing
  given_date missing (Json.str []) = ok missing
  given_date missing j = py.date_of (replace_z (py.str_of j)) >>= λ d. ok (some d)

  -- `_datetime`, where `missing` is what it makes of no value
  abbrev pub datetime : Option ℤ → Option Json → Result (Option ℤ)
  datetime missing none = ok missing
  datetime missing (some j) = given_date missing j

  -- `_host_key_text` of a text
  abbrev pub host_key_text : Text → Result Text
  host_key_text t =
      if is_empty (strip t) then raise ErrorKind.sandbox_failed else elim (py.canonical (strip t)) [
        | none ↦ raise ErrorKind.sandbox_failed
        | some c ↦ ok (strip c)
      ]

  -- `_remember_host_key`
  abbrev pub remember_host_key : Text → Text → Hosts → Result Hosts
  remember_host_key sandbox key hosts = host_key_text key >>= λ k. ok ((sandbox, k) ∷ hosts)

  -- the port, an `int` of the member or 22
  abbrev pub port_number : Fields → Result ℤ
  port_number ssh = elim (get (codes "port") ssh) [ none ↦ ok (pos 22) | some j ↦ py.int_of j ]

  abbrev pub pin_key : Text → Fields → Hosts → Result Hosts
  pin_key sandbox ssh hosts = elim (filled_text (codes "host_key") ssh) [
    | none ↦ ok hosts
    | some k ↦ remember_host_key sandbox k hosts
  ]

  -- the endpoint, with the host keys that are then remembered
  unfoldable pub connection_of : Text → Fields → Hosts → Result (Option Connection × Hosts)
  connection_of sandbox ssh hosts = elim (filled_text (codes "host") ssh) [
    | none ↦ ok (none, hosts)
    | some h ↦ do
      p ← port_number ssh
      pinned ← pin_key sandbox ssh hosts
      ok (
        some (record { host = h; port = p; user = text_or (codes "user") (codes "ubuntu") ssh }),
        pinned,
      )
  ]

  abbrev pub resources_of : Fields → Result Resources
  resources_of spec = do
    c ← number (codes "cpu_count") spec
    m ← number (codes "memory_gib") spec
    s ← number (codes "storage_gib") spec
    g ← number (codes "gpu_count") spec
    ok (record { cpu = c; memory = m; storage = s; gpu_type = gpu_type_of spec; gpu_count = g })

  -- the members that are decoded after the endpoint
  unfoldable pub described : Text → Option Connection → Fields → Result SandboxInfo
  described sandbox connection fs = do
    r ← resources_of (object_of (get (codes "spec") fs))
    g ← generation_from (get (codes "network_policy_generation") fs)
    d ← generation_from (get (codes "desired_network_policy_generation") fs)
    c ← datetime (some (pos 0)) (get (codes "created_at") fs)
    e ← datetime none (get (codes "expires_at") fs)
    ok (record {
      id = sandbox;
      name = text_or (codes "name") [] fs;
      status = status_of (text_or (codes "status") (codes "created") fs);
      resources = r;
      network_policy = policy_from_response py.str_of (get (codes "network_policy") fs);
      network_policy_generation = g;
      desired_network_policy_generation = d;
      queued = is_true (get (codes "queued") fs);
      workspace_id = workspace_id_of fs;
      created_at = c;
      expires_at = e;
      ssh = connection;
      failure_code = filled_text (codes "failure_code") fs;
      failure = filled_text (codes "failure") fs;
      image_id = filled_text (codes "image_id") fs;
    })

  -- A host key stays remembered also where a later member does not decode.
  abbrev pub with_connection :
      Text → Fields → Hosts → Result (Option Connection × Hosts) → Result SandboxInfo × Hosts
  with_connection sandbox fs hosts (ok (c, pinned)) = (described sandbox c fs, pinned)
  with_connection sandbox fs hosts (err e) = (err e, hosts)

  -- `_info_from_response`
  unfoldable pub info_from_response : Fields → Hosts → Result SandboxInfo × Hosts
  info_from_response fs hosts =
      let sandbox = text_or (codes "id") [] fs in
      if is_empty sandbox
      then (raise ErrorKind.sandbox_failed, hosts)
      else with_connection sandbox fs hosts
          (connection_of sandbox (object_of (get (codes "ssh") fs)) hosts)
