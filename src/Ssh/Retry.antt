-- ===== src/Ssh/Retry.antt =====
-- `SSHConnectionManager.run` (thunder_sandbox/asynchronous/_ssh.py). Times are milliseconds of the
-- manager's monotonic clock.
pub mod Bound
pub mod Causes
pub mod Ends
pub mod Custody
use thunder_sandbox.Prelude.{
  ℕ, ◌+◌, ◌-◌, ◌*◌, ◌/◌, Bool, true, false, Option, none, some, List, [], ◌∷◌, leb, min, max,
  if◌then◌else◌,
}
use thunder_sandbox.Common.Errors.{ErrorKind}
use thunder_sandbox.Ssh.Manager.{
  SshError, is_transient, Manager, Reply, returned, raised, get, discard,
}

abbrev pub retry_initial : ℕ
retry_initial = 250

abbrev pub retry_max : ℕ
retry_max = 5000

abbrev pub retry_budget : ℕ
retry_budget = 600000

-- What the world answers in one round of the loop: which connections are closed, what
-- `_open_connection` raises and the operation does should they be called, how long they take, what
-- `jitter(0, high)` returns, and how much longer than asked the sleep takes.
pub record Round {ℓ} (A : Type ℓ) : Type ℓ where
  pub is_closed : ℕ → Bool
  pub refusal : Option SshError
  pub operation : ℕ → Reply A
  pub duration : ℕ
  pub jitter : ℕ → ℕ
  pub oversleep : ℕ

-- the variables of `run` between two rounds, with the clock and the manager
pub record Loop : Type 0 where
  pub manager : Manager
  pub now : ℕ
  pub delay : ℕ
  pub failing_since : Option ℕ

-- How the call ends, with the manager that it leaves and, for its own `ConnectionError`s, the time:
-- `exhausted` when the budget is spent, `late` when the deadline has passed.
pub data Outcome {ℓ} (A : Type ℓ) : Type ℓ where
  success : A → Manager → Outcome A
  failure : SshError → Manager → Outcome A
  exhausted late : ℕ → Manager → Outcome A
  -- the rounds that were given are over, and the loop is not
  running : Loop → Outcome A

-- the connection that the round used, if `get` returned one, and what the round came to
abbrev attempt_with {ℓ} : {A : Type ℓ} → Round A → Reply ℕ × Manager → Option ℕ × Reply A × Manager
attempt_with r (returned c, m) = (some c, r.operation c, m)
attempt_with r (raised e, m) = (none, raised e, m)

unfoldable pub attempt {ℓ} : {A : Type ℓ} → Round A → Manager → Option ℕ × Reply A × Manager
attempt r m = attempt_with r (get r.is_closed r.refusal m)

abbrev discard_used : Option ℕ → Manager → Manager
discard_used none m = m
discard_used (some c) m = discard c m

-- Since when attempts have been failing, or `none` when the budget is spent.
unfoldable pub charge : Option ℕ → ℕ → ℕ → Option ℕ
charge none started now = some now
charge (some since) started now =
    if leb retry_budget (now - started)
    then some now
    else if leb retry_budget (now - since)
    then none
    else some since

-- `remaining <= 0`
abbrev is_late : Option ℕ → ℕ → Bool
is_late none now = false
is_late (some d) now = leb d now

abbrev cut_pause : Option ℕ → ℕ → ℕ → ℕ
cut_pause none now pause = pause
cut_pause (some d) now pause = min pause (d - now)

abbrev jitter_high : ℕ → ℕ
jitter_high delay = delay / 5

-- the `except` branch for a transient error, up to the next round
unfoldable pub back_off {ℓ} :
    {A : Type ℓ} → Option ℕ → Round A → ℕ → ℕ → Option ℕ → Manager → Outcome A
back_off deadline r now delay none m = exhausted now m
back_off deadline r now delay (some since) m =
    if is_late deadline now
    then late now m
    else running (record {
      manager = m;
      now = now + cut_pause deadline now (delay + r.jitter (jitter_high delay)) + r.oversleep;
      delay = min retry_max (delay * 2);
      failing_since = some since;
    })

unfoldable pub settle {ℓ} :
    {A : Type ℓ} → Option ℕ → Round A → Loop → Option ℕ × Reply A × Manager → Outcome A
settle deadline r l (used, returned a, m) = success a m
settle deadline r l (used, raised e, m) =
    if is_transient e
    then back_off deadline r (l.now + r.duration) l.delay
        (charge l.failing_since l.now (l.now + r.duration)) (discard_used used m)
    else failure e m

unfoldable pub round {ℓ} : {A : Type ℓ} → Option ℕ → Round A → Loop → Outcome A
round deadline r l = settle deadline r l (attempt r l.manager)

abbrev then_next {ℓ} : {A : Type ℓ} → Outcome A → (Loop → Outcome A) → Outcome A
then_next (running l) k = k l
then_next o k = o

unfoldable pub run_from {ℓ} : {A : Type ℓ} → Option ℕ → List (Round A) → Loop → Outcome A
run_from deadline [] l = running l
run_from deadline (r ∷ rs) l = then_next (round deadline r l) (run_from deadline rs)

unfoldable pub run {ℓ} : {A : Type ℓ} → Option ℕ → List (Round A) → Manager → ℕ → Outcome A
run deadline rs m now =
    run_from deadline rs
      (record { manager = m; now = now; delay = retry_initial; failing_since = none })
