-- ===== src/Lifecycle/Poll.antt =====
-- Pauses between requests, and the faults that are waited out
-- (thunder_sandbox/asynchronous/sandbox.py).
pub mod Bounds
pub mod Transience
use thunder_sandbox.Prelude.{
  ℕ, ◌+◌, ◌-◌, ◌*◌, ◌/◌, Bool, true, false, Option, none, some, leb, min, max, if◌then◌else◌,
}
use thunder_sandbox.Common.Errors.{Error, ErrorKind, ThunderError, thunder_error, is_retryable}
use thunder_sandbox.Lifecycle.Box.{Box, later}

abbrev pub outage_grace : ℕ
outage_grace = 30000

abbrev pub window_max : ℕ
window_max = 30000

-- `_wait_window`, in whole milliseconds
unfoldable pub wait_window : Option ℕ → ℕ → ℕ
wait_window none now = window_max
wait_window (some d) now = max 1 (min window_max (d - now))

-- what `random.uniform(0.0, high)` returns, and how much longer than asked the sleep takes
pub record Pause : Type 0 where
  pub jitter : ℕ → ℕ
  pub oversleep : ℕ

abbrev or_zero : Option ℕ → ℕ
or_zero none = 0
or_zero (some n) = n

abbrev cut : Option ℕ → ℕ → ℕ → ℕ
cut none now delay = delay
cut (some d) now delay = min delay (d - now)

abbrev with_jitter : (ℕ → ℕ) → ℕ → ℕ
with_jitter jitter delay = delay + jitter (min (delay / 5) 1000)

-- `_sleep_until_next_poll`
unfoldable pub sleep_until_next_poll : Option ℕ → ℕ → Option ℕ → Pause → Box → Box
sleep_until_next_poll deadline delay retry_after pause b =
    later
      (cut deadline b.now (with_jitter pause.jitter (max delay (or_zero retry_after)))
        + pause.oversleep)
      b

abbrev pub is_late : Option ℕ → ℕ → Bool
is_late none now = false
is_late (some d) now = leb d now

-- the variables `failing_since` and `delay` of a polling loop
pub record Pace : Type 0 where
  pub failing_since : Option ℕ
  pub delay : ℕ

abbrev pub fresh_pace : Pace
fresh_pace = record { failing_since = none; delay = 1000 }

abbrev pub slower : ℕ → ℕ
slower delay = min 5000 (delay * 2)

abbrev pub is_connection_kind : ErrorKind → Bool
is_connection_kind ErrorKind.connection = true
is_connection_kind k = is_retryable k

-- `except (ConnectionError, RetryableError) as exc`
abbrev pub transient : Error → Option ThunderError
transient (thunder_error e) = if is_connection_kind e.kind then some e else none
transient _ = none

abbrev pub or_now : Option ℕ → ℕ → ℕ
or_now none now = now
or_now (some since) now = since

-- the body of that clause: `none` where it raises again, and otherwise the loop after the pause
unfoldable pub tolerate : Option ℕ → ThunderError → Pause → Pace → Box → Option (Pace × Box)
tolerate deadline e pause p b =
    if leb outage_grace (b.now - or_now p.failing_since b.now)
    then none
    else if is_late deadline b.now
    then none
    else some (
      record { failing_since = some (or_now p.failing_since b.now); delay = slower p.delay },
      sleep_until_next_poll deadline p.delay e.retry_after pause b,
    )
