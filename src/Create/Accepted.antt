-- ===== src/Create/Accepted.antt =====
-- What the checks of `Sandbox.create` accept (thunder_sandbox/asynchronous/sandbox.py).
use Prim.Native.Nat.{zero, suc}
use thunder_sandbox.Prelude.{
  ℕ, ◌≡◌, ◌≢◌, ◌↔◌, ◌⊎◌, inl, inr, refl, Bool, true, false, not, Option, none, some, List, Text, ℤ,
  pos, negsuc, if◌then◌else◌, arith,
}
use thunder_sandbox.Common.Errors.{Result, ok, err, guard, ◌>>=◌, ◌>>◌}
use thunder_sandbox.Create.Options.{
  GpuType, Argument, proper, improper, is_proper, proper_or_none, Options, invalid, is_negative,
  is_cpu_only, is_no_count, is_gpu_count, validate_network_policy_options, validate_create_options,
}

pub data IsTimeout : Option ℤ → Type 0 where
  no_timeout : IsTimeout none
  natural : (n : ℕ) → IsTimeout (some (pos n))

pub data IsProper {A : Type 0} : Argument A → Type 0 where
  is_one : (a : A) → IsProper (proper a)

pub data IsImage : Option (Argument Text) → Type 0 where
  no_image : IsImage none
  an_image : (i : Text) → IsImage (some (proper i))

pub data IsCount : ℕ → Type 0 where
  one : IsCount 1
  two : IsCount 2
  four : IsCount 4
  eight : IsCount 8

pub data IsNoCount : Option ℤ → Type 0 where
  absent : IsNoCount none
  zero_gpus : IsNoCount (some (pos 0))

-- a machine without a GPU, or 1, 2, 4 or 8 GPUs of one type
pub data IsMachine : Option (Argument GpuType) → Option ℤ → Type 0 where
  default_cpu : {c : Option ℤ} → IsNoCount c → IsMachine none c
  named_cpu : {c : Option ℤ} → IsNoCount c → IsMachine (some (proper GpuType.none_gpu)) c
  with_gpus :
      (g : GpuType)
      → g ≢ GpuType.none_gpu
      → (n : ℕ) → IsCount n
      → IsMachine (some (proper g)) (some (pos n))

-- who blocks the network names no allowlist
pub data IsPolicy : Bool → Option (List Text) → Option (List Text) → Type 0 where
  blocked : IsPolicy true none none
  not_blocked : (cs ds : Option (List Text)) → IsPolicy false cs ds

pub record IsAccepted (o : Options) : Type 0 where
  pub queue : IsProper o.queue
  pub timeout : IsTimeout o.timeout
  pub machine : IsMachine o.gpu_type o.gpu_count
  pub image : IsImage o.image
  pub policy : IsPolicy o.block_network o.outbound_cidr_allowlist o.outbound_domain_allowlist

sequence_iff : (m k : Result (Unit {0})) → ((m >> k) ≡ ok tt) ↔ ((m ≡ ok tt) × (k ≡ ok tt))
unfolding ◌>>=◌
sequence_iff (ok tt) k = (λ h. (refl, h), λ h. h.1)
sequence_iff (err e) k = (λ h. ground arith, λ h. ground arith)

guard_iff : (b : Bool) → (guard b invalid ≡ ok tt) ↔ (b ≡ true)
guard_iff true = (λ h. refl, λ h. refl)
guard_iff false = (λ h. ground arith, λ h. ground arith)

IsProper-iff : {A : Type 0} (a : Argument A) → (is_proper a ≡ true) ↔ IsProper a
IsProper-iff (proper a) = (λ h. is_one a, λ h. refl)
IsProper-iff improper = (λ h. ground arith, λ h. elim h [ ])

IsTimeout-iff : (t : Option ℤ) → (not (is_negative t) ≡ true) ↔ IsTimeout t
IsTimeout-iff none = (λ h. no_timeout, λ h. refl)
IsTimeout-iff (some (pos n)) = (λ h. natural n, λ h. refl)
IsTimeout-iff (some (negsuc n)) = (λ h. ground arith, λ h. elim h [ ])

IsImage-iff : (i : Option (Argument Text)) → (proper_or_none i ≡ true) ↔ IsImage i
IsImage-iff none = (λ h. no_image, λ h. refl)
IsImage-iff (some (proper i)) = (λ h. an_image i, λ h. refl)
IsImage-iff (some improper) = (λ h. ground arith, λ h. elim h [ ])

count_cases :
    (n : ℕ) → is_gpu_count (some (pos n)) ≡ true → (n ≡ 1) ⊎ ((n ≡ 2) ⊎ ((n ≡ 4) ⊎ (n ≡ 8)))
count_cases n h = ground arith

is_gpu_count-IsCount : (n : ℕ) → is_gpu_count (some (pos n)) ≡ true → IsCount n
is_gpu_count-IsCount n h = elim (count_cases n h) [
  | inl e ↦ rw e one
  | inr (inl e) ↦ rw e two
  | inr (inr (inl e)) ↦ rw e four
  | inr (inr (inr e)) ↦ rw e eight
]

count_of : {n : ℕ} → IsCount n → is_gpu_count (some (pos n)) ≡ true
count_of one = refl
count_of two = refl
count_of four = refl
count_of eight = refl

IsNoCount-iff : (c : Option ℤ) → (is_no_count c ≡ true) ↔ IsNoCount c
IsNoCount-iff none = (λ h. absent, λ h. refl)
IsNoCount-iff (some (pos zero)) = (λ h. zero_gpus, λ h. refl)
IsNoCount-iff (some (pos (suc n))) = (λ h. ground arith, λ h. elim h [ ])
IsNoCount-iff (some (negsuc n)) = (λ h. ground arith, λ h. elim h [ ])

IsPolicy-iff :
    (b : Bool) (cs ds : Option (List Text))
    → (validate_network_policy_options b cs ds ≡ ok tt) ↔ IsPolicy b cs ds
unfolding validate_network_policy_options
IsPolicy-iff false cs ds = (λ h. not_blocked cs ds, λ h. refl)
IsPolicy-iff true none none = (λ h. blocked, λ h. refl)
IsPolicy-iff true (some cs) ds = (λ h. ground arith, λ h. elim h [ ])
IsPolicy-iff true none (some ds) = (λ h. ground arith, λ h. elim h [ ])

-- the test of the number of GPUs
abbrev machine_allowed : Option (Argument GpuType) → Option ℤ → Bool
machine_allowed g c = if is_cpu_only g then is_no_count c else is_gpu_count c

gpu_not_cpu : (g : GpuType) → g ≢ GpuType.none_gpu → is_cpu_only (some (proper g)) ≡ false
gpu_not_cpu GpuType.none_gpu h = absurd (h refl)
gpu_not_cpu GpuType.a6000 h = refl
gpu_not_cpu GpuType.a100 h = refl
gpu_not_cpu GpuType.a100xl h = refl
gpu_not_cpu GpuType.h100 h = refl
gpu_not_cpu GpuType.unknown h = refl

gpus-IsMachine :
    (g : GpuType)
    → g ≢ GpuType.none_gpu
    → (c : Option ℤ) → is_gpu_count c ≡ true
    → IsMachine (some (proper g)) c
gpus-IsMachine g h none k = ground arith
gpus-IsMachine g h (some (pos n)) k = with_gpus g h n (is_gpu_count-IsCount n k)
gpus-IsMachine g h (some (negsuc n)) k = ground arith

allowed-IsMachine :
    (g : Option (Argument GpuType)) (c : Option ℤ)
    → proper_or_none g ≡ true
    → machine_allowed g c ≡ true
    → IsMachine g c
allowed-IsMachine none c p h = default_cpu ((IsNoCount-iff c).0 h)
allowed-IsMachine (some improper) c p h = ground arith
allowed-IsMachine (some (proper GpuType.none_gpu)) c p h = named_cpu ((IsNoCount-iff c).0 h)
allowed-IsMachine (some (proper GpuType.a6000)) c p h = gpus-IsMachine GpuType.a6000 (λ e. cc) c h
allowed-IsMachine (some (proper GpuType.a100)) c p h = gpus-IsMachine GpuType.a100 (λ e. cc) c h
allowed-IsMachine (some (proper GpuType.a100xl)) c p h = gpus-IsMachine GpuType.a100xl (λ e. cc) c h
allowed-IsMachine (some (proper GpuType.h100)) c p h = gpus-IsMachine GpuType.h100 (λ e. cc) c h
allowed-IsMachine (some (proper GpuType.unknown)) c p h =
    gpus-IsMachine GpuType.unknown (λ e. cc) c h

machine_back :
    {g : Option (Argument GpuType)} {c : Option ℤ}
    → IsMachine g c
    → (proper_or_none g ≡ true) × (machine_allowed g c ≡ true)
machine_back (default_cpu {c} k) = (refl, (IsNoCount-iff c).1 k)
machine_back (named_cpu {c} k) = (refl, (IsNoCount-iff c).1 k)
machine_back (with_gpus g h n k) = (refl, rw (gpu_not_cpu g h) (count_of k))

step_iff :
    (m : Result (Unit {0})) (b : Bool)
    → ((m >> guard b invalid) ≡ ok tt) ↔ ((m ≡ ok tt) × (b ≡ true))
step_iff m b = (
  λ h. (((sequence_iff m _).0 h).0, (guard_iff b).0 ((sequence_iff m _).0 h).1),
  λ h. (sequence_iff m (guard b invalid)).1 (h.0, (guard_iff b).1 h.1),
)

pub accepted : (o : Options) → validate_create_options o ≡ ok tt → IsAccepted o
unfolding validate_create_options
accepted o h =
    let p = (sequence_iff _ _).0 h in
    let i = (step_iff _ _).0 p.0 in
    let c = (step_iff _ _).0 i.0 in
    let g = (step_iff _ _).0 c.0 in
    let t = (step_iff _ _).0 g.0 in
    record {
      queue = (IsProper-iff o.queue).0 ((guard_iff _).0 t.0);
      timeout = (IsTimeout-iff o.timeout).0 t.1;
      machine = allowed-IsMachine o.gpu_type o.gpu_count g.1 c.1;
      image = (IsImage-iff o.image).0 i.1;
      policy = (IsPolicy-iff _ _ _).0 p.1;
    }

accepted_back : (o : Options) → IsAccepted o → validate_create_options o ≡ ok tt
unfolding validate_create_options
accepted_back o a =
    let m = machine_back a.machine in
    let q = (guard_iff _).1 ((IsProper-iff o.queue).1 a.queue) in
    let t = (step_iff _ _).1 (q, (IsTimeout-iff o.timeout).1 a.timeout) in
    let g = (step_iff _ _).1 (t, m.0) in
    let c = (step_iff _ _).1 (g, m.1) in
    let i = (step_iff _ _).1 (c, (IsImage-iff o.image).1 a.image) in
    (sequence_iff _ _).1 (i, (IsPolicy-iff _ _ _).1 a.policy)

-- The checks of the options let through exactly a queue flag that is a Boolean, a timeout that is
-- missing or not negative, a machine without a GPU whose number of GPUs is missing or 0 or one with
-- 1, 2, 4 or 8 GPUs of a type, no image or an image, and no allowlist where the network is blocked.
pub validate_create_options_iff : (o : Options) → (validate_create_options o ≡ ok tt) ↔ IsAccepted o
validate_create_options_iff o = (accepted o, accepted_back o)
