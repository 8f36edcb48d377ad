-- ===== src/Create/Options.antt =====
-- `_validate_create_options`, `_validate_network_policy_options` and `_network_policy_request`
-- (thunder_sandbox/asynchronous/sandbox.py), and `GPUType` (thunder_sandbox/_common/types.py).
use thunder_sandbox.Prelude.{
  Bool, true, false, ◌&&◌, ◌||◌, not, Option, none, some, is_some, List, [], Text, ℤ, pos, negsuc,
  is_nat, if◌then◌else◌,
}
use thunder_sandbox.Common.Errors.{Error, ErrorKind, thunder_error, plain, Result, guard, ◌>>◌}

pub data GpuType : Type 0 where
  none_gpu a6000 a100 a100xl h100 unknown : GpuType

-- an argument that should be an `A`, and may be anything
pub data Argument (A : Type 0) : Type 0 where
  proper : A → Argument A
  improper : Argument A

abbrev pub is_proper : {A : Type 0} → Argument A → Bool
is_proper (proper a) = true
is_proper improper = false

abbrev pub proper_or_none : {A : Type 0} → Option (Argument A) → Bool
proper_or_none none = true
proper_or_none (some a) = is_proper a

-- an image is known by its identifier
pub record Options : Type 0 where
  pub timeout : Option ℤ
  pub queue : Argument Bool
  pub gpu_type : Option (Argument GpuType)
  pub gpu_count : Option ℤ
  pub image : Option (Argument Text)
  pub block_network : Bool
  pub outbound_cidr_allowlist : Option (List Text)
  pub outbound_domain_allowlist : Option (List Text)

abbrev pub invalid : Error
invalid = thunder_error (plain ErrorKind.invalid_request)

-- `timeout is not None and timeout < 0`
abbrev pub is_negative : Option ℤ → Bool
is_negative none = false
is_negative (some (pos n)) = false
is_negative (some (negsuc n)) = true

-- `gpu_type in (None, GPUType.NONE)`
abbrev pub is_cpu_only : Option (Argument GpuType) → Bool
is_cpu_only none = true
is_cpu_only (some (proper GpuType.none_gpu)) = true
is_cpu_only _ = false

-- `gpu_count in (None, 0)`
abbrev pub is_no_count : Option ℤ → Bool
is_no_count none = true
is_no_count (some n) = is_nat 0 n

-- `gpu_count in (1, 2, 4, 8)`
abbrev pub is_gpu_count : Option ℤ → Bool
is_gpu_count none = false
is_gpu_count (some n) = is_nat 1 n || is_nat 2 n || is_nat 4 n || is_nat 8 n

unfoldable pub validate_network_policy_options :
    Bool → Option (List Text) → Option (List Text) → Result (Unit {0})
validate_network_policy_options block_network cidrs domains =
    guard (not (block_network && (is_some cidrs || is_some domains))) invalid

unfoldable pub validate_create_options : Options → Result (Unit {0})
validate_create_options o =
    guard (is_proper o.queue) invalid
    >> guard (not (is_negative o.timeout)) invalid
    >> guard (proper_or_none o.gpu_type) invalid
    >> guard (if is_cpu_only o.gpu_type then is_no_count o.gpu_count else is_gpu_count o.gpu_count)
        invalid
    >> guard (proper_or_none o.image) invalid
    >> validate_network_policy_options o.block_network o.outbound_cidr_allowlist
        o.outbound_domain_allowlist

-- the texts "closed", "open" and "restricted"
pub data InternetAccess : Type 0 where
  closed opened restricted : InternetAccess

pub record PolicyRequest : Type 0 where
  pub internet_access : InternetAccess
  pub cidr_allowlist : List Text
  pub domain_allowlist : List Text

-- `list(allowlist or ())`
abbrev pub listed : Option (List Text) → List Text
listed none = []
listed (some xs) = xs

unfoldable pub network_policy_request :
    Bool → Option (List Text) → Option (List Text) → PolicyRequest
network_policy_request block_network cidrs domains =
    if block_network
    then record { internet_access = closed; cidr_allowlist = []; domain_allowlist = [] }
    else (if not (is_some cidrs) && not (is_some domains)
        then record { internet_access = opened; cidr_allowlist = []; domain_allowlist = [] }
        else record {
          internet_access = restricted;
          cidr_allowlist = listed cidrs;
          domain_allowlist = listed domains;
        })
