-- ===== src/Create/Body.antt =====
-- The body of the start request that `Sandbox.create` sends (thunder_sandbox/asynchronous/sandbox.py).
use thunder_sandbox.Prelude.{
  ℕ, Bool, true, false, Option, none, some, [], ◌∷◌, Text, codes, text_eq, ℤ, pos, if◌then◌else◌,
}
use thunder_sandbox.Common.Json.{Json, Fields, str_items}
use thunder_sandbox.Jobs.Spec.{Env}
use thunder_sandbox.Create.Options.{
  GpuType, InternetAccess, closed, opened, restricted, PolicyRequest,
}

-- the value of a member of `GPUType`
unfoldable pub gpu_value : GpuType → Text
gpu_value GpuType.none_gpu = codes "none"
gpu_value GpuType.a6000 = codes "A6000"
gpu_value GpuType.a100 = codes "A100"
gpu_value GpuType.a100xl = codes "A100XL"
gpu_value GpuType.h100 = codes "H100"
gpu_value GpuType.unknown = codes "unknown"

abbrev pub access_text : InternetAccess → Text
access_text closed = codes "closed"
access_text opened = codes "open"
access_text restricted = codes "restricted"

-- what the request is made of, once the workspace and the image are resolved
pub record Parts : Type 0 where
  pub name : Option Text
  pub env : Option Env
  pub gated_features : Option Fields
  pub timeout : Option ℤ
  pub queue : Bool
  pub cpu : Option ℤ
  pub memory : Option ℤ
  pub storage : Option ℤ
  pub gpu_type : Option GpuType
  pub gpu_count : Option ℤ
  pub image_id : Option Text
  pub workspace_id : Text
  pub policy : PolicyRequest

abbrev pub or_default : ℕ → Option ℤ → Json
or_default d none = Json.int (pos d)
or_default d (some n) = Json.int n

abbrev pub int_or_null : Option ℤ → Json
int_or_null none = Json.null
int_or_null (some n) = Json.int n

-- the members about the GPUs, if there are any
abbrev pub gpu_fields : Option GpuType → Option ℤ → Fields
gpu_fields none n = Fields.done
gpu_fields (some GpuType.none_gpu) n = Fields.done
gpu_fields (some g) n =
    Fields.field (codes "gpu_type") (Json.str (gpu_value g))
      (Fields.field (codes "gpu_count") (int_or_null n) Fields.done)

-- `resource_spec`
unfoldable pub resource_spec : Parts → Fields
resource_spec p = Fields.field (codes "cpu_count") (or_default 4 p.cpu) (
    Fields.field (codes "memory_gib") (or_default 32 p.memory) (
      Fields.field (codes "storage_gib") (or_default 50 p.storage)
        (gpu_fields p.gpu_type p.gpu_count)))

-- the variables that have a value
abbrev pub set_variables : Env → Fields
set_variables [] = Fields.done
set_variables ((k, none) ∷ rest) = set_variables rest
set_variables ((k, some v) ∷ rest) = Fields.field k (Json.str v) (set_variables rest)

abbrev pub env_fields : Option Env → Fields
env_fields none = Fields.done
env_fields (some e) = set_variables e

abbrev pub lifetime_fields : Option ℤ → Fields
lifetime_fields none = Fields.field (codes "enforce_ttl") (Json.bool false) Fields.done
lifetime_fields (some n) =
    Fields.field (codes "enforce_ttl") (Json.bool true)
      (Fields.field (codes "max_ttl_seconds") (Json.int n) Fields.done)

abbrev pub policy_fields : PolicyRequest → Fields
policy_fields r =
    Fields.field (codes "internet_access") (Json.str (access_text r.internet_access)) (
      Fields.field (codes "cidr_allowlist") (Json.arr (str_items r.cidr_allowlist)) (
        Fields.field (codes "domain_allowlist") (Json.arr (str_items r.domain_allowlist))
          Fields.done))

-- a member that is there only if its value is
abbrev pub optional_field : Text → Option Json → Fields → Fields
optional_field k none fs = fs
optional_field k (some j) fs = Fields.field k j fs

abbrev pub text_json : Option Text → Option Json
text_json none = none
text_json (some t) = some (Json.str t)

abbrev pub fields_json : Option Fields → Option Json
fields_json none = none
fields_json (some fs) = some (Json.obj fs)

abbrev pub queue_json : Bool → Option Json
queue_json q = if q then some (Json.bool true) else none

abbrev pub workspace_json : Text → Option Json
workspace_json w = if text_eq w (codes "main") then none else some (Json.str w)

unfoldable pub start_request : Parts → Fields
start_request p = optional_field (codes "queue") (queue_json p.queue) (
    optional_field (codes "workspace_id") (workspace_json p.workspace_id) (
      Fields.field (codes "spec") (Json.obj (resource_spec p)) (
        Fields.field (codes "env") (Json.obj (env_fields p.env)) (
          Fields.field (codes "lifetime") (Json.obj (lifetime_fields p.timeout)) (
            Fields.field (codes "network_policy") (Json.obj (policy_fields p.policy)) (
              optional_field (codes "gatedFeatures") (fields_json p.gated_features) (
                optional_field (codes "name") (text_json p.name)
                  (optional_field (codes "image_id") (text_json p.image_id) Fields.done))))))))
