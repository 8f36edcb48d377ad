-- ===== src/Policy/Update.antt =====
-- `update_network_policy`, `_update_network_policy` and `_wait_for_network_policy`
-- (thunder_sandbox/asynchronous/sandbox.py). Times are milliseconds.
pub mod Verdicts
pub mod Waiting
pub mod Enforced
use thunder_sandbox.Prelude.{
  ℕ, ◌-◌, ◌+◌, ◌==◌, Bool, true, false, ◌&&◌, ◌||◌, not, Option, none, some, List, [], ◌∷◌, Text,
  codes, text_eq, leb, ltb, if◌then◌else◌,
}
use thunder_sandbox.Common.Errors.{
  Error, ErrorKind, ThunderError, thunder_error, plain, Result, ok, err,
}
use thunder_sandbox.Common.Task.{Ran, done, threw, waiting}
use thunder_sandbox.Lifecycle.Box.{SandboxStatus, ready, is_final}
use thunder_sandbox.Lifecycle.Poll.{outage_grace, transient, or_now}
use thunder_sandbox.Policy.Decode.{NetworkPolicy, policy_eq}

-- what is decoded of the description of a sandbox
pub record View : Type 0 where
  pub status : SandboxStatus
  pub policy : NetworkPolicy
  pub enforced : Option ℕ
  pub desired : Option ℕ

-- the reply to one read: its ID, and what its decoding comes to
pub record Reply : Type 0 where
  pub id : Text
  pub info : Result View

-- One read: the reply, or what the request raises, and the time at which it comes, after the pause
-- before it.
pub record Poll : Type 0 where
  pub reply : Result Reply
  pub arrives : ℕ

-- an observation, the exceptions of `asyncio` apart
pub data Verdict : Type 0 where
  enforced_now : Verdict
  not_yet : Verdict
  refuses : Error → Verdict

abbrev pub conflict : Error
conflict = thunder_error (record {
  kind = ErrorKind.conflict;
  code = some (codes "sandbox_update_conflict");
  status = none;
  retry_after = none;
})

-- `value is not None and value > generation`
abbrev pub is_beyond : ℕ → Option ℕ → Bool
is_beyond g none = false
is_beyond g (some n) = ltb g n

abbrev pub is_generation : ℕ → Option ℕ → Bool
is_generation g none = false
is_generation g (some n) = n == g

abbrev pub is_ready : SandboxStatus → Bool
is_ready ready = true
is_ready _ = false

-- the tests on a fresh view, in their order
unfoldable pub judge : NetworkPolicy → ℕ → View → Verdict
judge p g v =
    if is_final v.status
    then refuses (thunder_error (plain ErrorKind.sandbox_failed))
    else if is_beyond g v.desired || is_beyond g v.enforced
    then refuses conflict
    else if is_generation g v.desired && (is_generation g v.enforced && is_ready v.status)
    then (if policy_eq v.policy p then enforced_now else refuses conflict)
    else not_yet

abbrev pub judge_info : NetworkPolicy → ℕ → Result View → Verdict
judge_info p g (err e) = refuses e
judge_info p g (ok v) = judge p g v

-- the reply must be about this sandbox
unfoldable pub judge_reply : Text → NetworkPolicy → ℕ → Reply → Verdict
judge_reply id p g r =
    if text_eq r.id id
    then judge_info p g r.info
    else refuses (thunder_error (plain ErrorKind.connection))

abbrev pub tolerated : Error → Option ThunderError → Option ℕ → ℕ → Option Error
tolerated e none failing now = some e
tolerated e (some t) failing now =
    if leb outage_grace (now - or_now failing now) then some e else none

-- the loop after a fault that is waited out, and the exception of one that is not
abbrev pub after_fault : Option ℕ → ℕ → Option Error → (Option ℕ → Ran (Unit {0})) → Ran (Unit {0})
after_fault failing now (some e) k = threw e
after_fault failing now none k = k (some (or_now failing now))

abbrev pub after_verdict : Verdict → (Option ℕ → Ran (Unit {0})) → Ran (Unit {0})
after_verdict enforced_now k = done tt
after_verdict not_yet k = k none
after_verdict (refuses e) k = threw e

abbrev pub after_poll :
    Text
    → NetworkPolicy
    → ℕ
    → Option ℕ
    → Result Reply
    → ℕ
    → (Option ℕ → Ran (Unit {0}))
    → Ran (Unit {0})
after_poll id p g failing (err e) now k =
    after_fault failing now (tolerated e (transient e) failing now) k
after_poll id p g failing (ok r) now k = after_verdict (judge_reply id p g r) k

-- `_wait_for_network_policy`, with `failing_since`
unfoldable pub wait_for_policy : Text → NetworkPolicy → ℕ → List Poll → Option ℕ → Ran (Unit {0})
wait_for_policy id p g [] failing = waiting
wait_for_policy id p g (q ∷ qs) failing =
    let rest = wait_for_policy id p g qs in after_poll id p g failing q.reply q.arrives rest

-- what is read of the reply to the PATCH request: no policy, or the accepted one with its generation
pub data Accepted : Type 0 where
  no_policy : Accepted
  accepted : NetworkPolicy → Result (Option ℕ) → Accepted

abbrev pub is_pending : Error → Bool
is_pending (thunder_error e) = elim e.kind [
  | ErrorKind.conflict ↦ elim e.code [
    | none ↦ false
    | some c ↦ text_eq c (codes "sandbox_update_conflict")
  ]
  | _ ↦ false
]
is_pending _ = false

-- how the PATCH requests end; `sent` counts those that were sent
pub data Patched : Type 0 where
  reply : Accepted → ℕ → Patched
  gave_up : Error → ℕ → Patched
  still : Patched

abbrev pub after_patch : Result Accepted → ℕ → (ℕ → Patched) → Patched
after_patch (ok a) sent k = reply a (sent + 1)
after_patch (err e) sent k = if is_pending e then k (sent + 1) else gave_up e (sent + 1)

-- the loop of `_update_network_policy`: only a conflict with a pending update is tried again
unfoldable pub patch : List (Result Accepted) → ℕ → Patched
patch [] sent = still
patch (r ∷ rs) sent = let rest = patch rs in after_patch r sent rest

abbrev pub after_generation : Text → NetworkPolicy → Result (Option ℕ) → List Poll → Ran (Unit {0})
after_generation id p (err e) qs = threw e
after_generation id p (ok none) qs = done tt
after_generation id p (ok (some g)) qs = wait_for_policy id p g qs none

abbrev pub after_accepted : Text → Accepted → List Poll → Ran (Unit {0})
after_accepted id no_policy qs = threw (thunder_error (plain ErrorKind.sandbox_failed))
after_accepted id (accepted p g) qs = after_generation id p g qs

abbrev pub after_patched : Text → Patched → List Poll → Ran (Unit {0})
after_patched id (reply a n) qs = after_accepted id a qs
after_patched id (gave_up e n) qs = threw e
after_patched id still qs = waiting

-- `_update_network_policy`, without the flush of the DNS caches
unfoldable pub update_policy : Text → List (Result Accepted) → List Poll → Ran (Unit {0})
update_policy id rs qs = after_patched id (patch rs 0) qs
