-- ===== src/Lifecycle/Poll/Bounds.antt =====
-- The bounds of a wait window and of a pause.
use thunder_sandbox.Prelude.{ℕ, ◌+◌, ◌≤◌, ◌<◌, Option, some, arith}
use thunder_sandbox.Lifecycle.Box.{Box}
use thunder_sandbox.Lifecycle.Poll.{window_max, wait_window, Pause, sleep_until_next_poll}

-- Before the deadline, the window that the API is asked for is at least a millisecond and at most the
-- maximum, and it does not outlast the deadline.
pub wait_window_bounds :
    (d now : ℕ)
    → now < d
    → (1 ≤ wait_window (some d) now)
      × (wait_window (some d) now ≤ window_max)
      × (now + wait_window (some d) now ≤ d)
unfolding wait_window
wait_window_bounds d now h = (omega arith, omega arith, omega (arith, h))

-- A pause that begins before the deadline asks to be woken by then, whatever the delay, the server's
-- hint and the jitter.
pub sleep_until_next_poll_in_time :
    (d delay : ℕ) (hint : Option ℕ) (pause : Pause) (b : Box)
    → b.now ≤ d
    → (sleep_until_next_poll (some d) delay hint pause b).now ≤ d + pause.oversleep
unfolding sleep_until_next_poll
sleep_until_next_poll_in_time d delay hint pause b h = omega (arith, h)
