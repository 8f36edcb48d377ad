-- ===== src/Process/Terminate/Reading.antt =====
-- The parts of `terminate` that read the status: they send no signal, and the status that they
-- return is the one that the handle holds.
use thunder_sandbox.Prelude.{
  ℕ, ◌≡◌, refl, ◌∙◌, inl, inr, Bool, true, false, ◌||◌, Option, none, some, List, [], ◌∷◌, ltb,
  is_some, Bool-cases, if◌then◌else◌,
}
use thunder_sandbox.Common.Errors.{Result, ok, err}
use thunder_sandbox.Common.Task.{Ran, done, threw, waiting, Task, pure, resume, ◌>>=◌, ◌>>◌}
use thunder_sandbox.Jobs.State.{terminal}
use thunder_sandbox.Jobs.Status.{JobStatus}
use thunder_sandbox.Process.Handle.{
  Handle, moves_backward, record_status, unless_terminal, read_and_record, refresh_status,
  accept_status,
}
use thunder_sandbox.Process.Terminate.{
  known_or, first_status, await_pid, Turn, is_connection, caught, grace,
}

-- what the status that a task returns says of the handle; a lost connection leaves its status
abbrev Seen : Handle → Ran JobStatus × Handle → Type 0
Seen h (done s, k) = k.status ≡ some s
Seen h (threw e, k) = is_connection e ≡ true → k.status ≡ h.status
Seen h (waiting, k) = Unit

record Reads (h : Handle) (r : Ran JobStatus × Handle) : Type 0 where
  quiet : r.1.signals ≡ h.signals
  seen : Seen h r

recorded-Reads : (s : JobStatus) (h : Handle) → Reads h ((do record_status h.status s; pure s) h)
unfolding record_status ◌>>=◌
recorded-Reads s h = elim (Bool-cases (moves_backward h.status s)) [
  | inl b ↦ rw b (record { quiet = refl; seen = λ c. refl })
  | inr b ↦ rw b (record { quiet = refl; seen = refl })
]

read-Reads : (reply : Result JobStatus) (h : Handle) → Reads h (read_and_record h.status reply h)
unfolding read_and_record ◌>>=◌
read-Reads (ok s) h = recorded-Reads s h
read-Reads (err e) h = record { quiet = refl; seen = λ c. refl }

unless-Reads :
    (o : Option JobStatus) (m : Task Handle JobStatus) (h : Handle)
    → h.status ≡ o
    → Reads h (m h)
    → Reads h (unless_terminal o m h)
unless-Reads none m h e f = f
unless-Reads (some s) m h e f = elim (Bool-cases (terminal s.state)) [
  | inl t ↦ rw t (record { quiet = refl; seen = e })
  | inr t ↦ rw t f
]

refresh-Reads : (reply : Result JobStatus) (h : Handle) → Reads h (refresh_status reply h)
unfolding refresh_status
refresh-Reads reply h = unless-Reads h.status _ h refl (read-Reads reply h)

accept-Reads : (s : JobStatus) (h : Handle) → Reads h (accept_status s h)
unfolding accept_status
accept-Reads s h = unless-Reads h.status _ h refl (recorded-Reads s h)

known-Reads :
    (o : Option JobStatus) (m : Task Handle JobStatus) (h : Handle)
    → h.status ≡ o
    → Reads h (m h)
    → Reads h (known_or o m h)
known-Reads none m h e f = f
known-Reads (some s) m h e f = record { quiet = refl; seen = e }

first-Reads : (reply : Result JobStatus) (h : Handle) → Reads h (first_status reply h)
unfolding first_status
first-Reads reply h = known-Reads h.status (refresh_status reply) h refl (refresh-Reads reply h)

-- the same of a task that may read several times
abbrev pub Shown : Ran JobStatus × Handle → Type 0
Shown (done s, k) = k.status ≡ some s
Shown _ = Unit

pub record Watched (h : Handle) (r : Ran JobStatus × Handle) : Type 0 where
  pub quiet : r.1.signals ≡ h.signals
  pub shown : Shown r

once-Watched : (h : Handle) (r : Ran JobStatus × Handle) → Reads h r → Watched h r
once-Watched h (done s, k) f = record { quiet = f.quiet; shown = f.seen }
once-Watched h (threw e, k) f = record { quiet = f.quiet; shown = tt }
once-Watched h (waiting, k) f = record { quiet = f.quiet; shown = tt }

pub first-Watched : (reply : Result JobStatus) (h : Handle) → Watched h (first_status reply h)
first-Watched reply h = once-Watched h _ (first-Reads reply h)

pub accept-Watched : (s : JobStatus) (h : Handle) → Watched h (accept_status s h)
accept-Watched s h = once-Watched h _ (accept-Reads s h)

later-Watched :
    (h k : Handle) (r : Ran JobStatus × Handle) → k.signals ≡ h.signals → Watched k r → Watched h r
later-Watched h k r q f = record { quiet = f.quiet ∙ q; shown = f.shown }

if-Watched :
    (b : Bool) (m n : Task Handle JobStatus) (h : Handle)
    → Watched h (m h)
    → Watched h (n h)
    → Watched h ((if b then m else n) h)
if-Watched true m n h f g = f
if-Watched false m n h f g = g

resumed-Watched :
    (h : Handle) (r : Ran JobStatus × Handle) (k : JobStatus → Task Handle JobStatus)
    → Watched h r
    → ((s : JobStatus) (l : Handle) → l.status ≡ some s → Watched l (k s l))
    → Watched h (resume r k)
resumed-Watched h (done s, l) k f g = later-Watched h l (k s l) f.quiet (g s l f.shown)
resumed-Watched h (threw e, l) k f g = record { quiet = f.quiet; shown = tt }
resumed-Watched h (waiting, l) k f g = record { quiet = f.quiet; shown = tt }

pub await-Watched :
    (replies : List (Result JobStatus)) (s : JobStatus) (h : Handle)
    → h.status ≡ some s
    → Watched h (await_pid replies s h)
unfolding await_pid ◌>>=◌
await-Watched [] s h e =
    if-Watched (terminal s.state || is_some s.pid) _ _ h (record { quiet = refl; shown = e })
      (record { quiet = refl; shown = tt })
await-Watched (reply ∷ replies) s h e =
    let again = await-Watched replies in
    if-Watched (terminal s.state || is_some s.pid) _ _ h (record { quiet = refl; shown = e })
      (resumed-Watched h (refresh_status reply h) (await_pid replies)
        (once-Watched h _ (refresh-Reads reply h)) again)

caught-Watched :
    (h : Handle) (r : Ran JobStatus × Handle) (s : JobStatus)
    (k : JobStatus → Task Handle JobStatus)
    → h.status ≡ some s
    → Reads h r
    → ((t : JobStatus) (l : Handle) → l.status ≡ some t → Watched l (k t l))
    → Watched h (caught r s k)
caught-Watched h (done t, l) s k e f g = elim (Bool-cases (terminal t.state)) [
  | inl x ↦ rw x (record { quiet = f.quiet; shown = f.seen })
  | inr x ↦ rw x (later-Watched h l (k t l) f.quiet (g t l f.seen))
]
caught-Watched h (threw x, l) s k e f g = elim (Bool-cases (is_connection x)) [
  | inl c ↦ rw c (record { quiet = f.quiet; shown = f.seen c ∙ e })
  | inr c ↦ rw c (record { quiet = f.quiet; shown = tt })
]
caught-Watched h (waiting, l) s k e f g = record { quiet = f.quiet; shown = tt }

pub grace-Watched :
    (deadline : ℕ) (turns : List Turn) (s : JobStatus) (h : Handle)
    → h.status ≡ some s
    → Watched h (grace deadline turns s h)
unfolding grace
grace-Watched deadline [] s h e = record { quiet = refl; shown = tt }
grace-Watched deadline (turn ∷ turns) s h e =
    let again = grace-Watched deadline turns in
    elim (Bool-cases (ltb turn.now deadline)) [
      | inl x ↦ rw x (
          caught-Watched h (refresh_status turn.reply h) s (grace deadline turns) e
            (refresh-Reads turn.reply h) again)
      | inr x ↦ rw x (record { quiet = refl; shown = e })
    ]
