-- ===== src/Examples/Ssh.antt =====
-- The connection manager of thunder_sandbox/asynchronous/_ssh.py.
use thunder_sandbox.Prelude.{
  ℕ, zero, suc, ◌≡◌, ◌≢◌, refl, arith, true, false, none, some, List, [], ◌∷◌, length, All,
}
use thunder_sandbox.Ssh.Manager.{
  SshError, os_error, is_transient, Manager, fresh, returned, raised, get, discard,
}
use thunder_sandbox.Ssh.Manager.Soundness.{IsSound}
use thunder_sandbox.Common.Errors
use thunder_sandbox.Credentials.Cache.{Disk, load, is_usable, date}
use thunder_sandbox.Credentials.Store
use thunder_sandbox.Credentials.Store.{
  fresh_store, certified, ensure, ensure_locked, renew, renew_locked, replacement, mint,
}
use thunder_sandbox.Ssh.Open
use thunder_sandbox.Ssh.Open.{Host, open_connection}
use thunder_sandbox.Ssh.Open.Trust.{Careful, open_connection-Careful}
use thunder_sandbox.Ssh.Retry.{
  Round, Loop, success, late, running, attempt, charge, back_off, settle, round, run_from, run,
}
use thunder_sandbox.Ssh.Retry.Bound.{IsShort, run_ends}
use thunder_sandbox.Ssh.Retry.Ends.{Explained, run-Explained}
use thunder_sandbox.Ssh.Retry.Custody.{left, run-IsSound}

-- a manager whose first connection was opened and discarded, and whose second is cached
abbrev reconnected : Manager
reconnected = record { cached = some 1; closed = false; opened = 2; shut = 0 ∷ [] }

reconnected-IsSound : IsSound reconnected
reconnected-IsSound = record {
  shut_opened = (omega arith, tt);
  cached_opened = omega arith;
  cached_open = ((λ e. omega (arith, e)), tt);
  closed_empty = tt;
}

newer_kept : (discard 0 reconnected).cached ≡ some 1
unfolding discard
newer_kept = refl

-- the operation loses its connection at once
abbrev lost : Round ℕ
lost = record {
  is_closed = λ c. false;
  refusal = none;
  operation = λ c. raised os_error;
  duration = 0;
  jitter = λ high. 0;
  oversleep = 0;
}

abbrev answered : Round ℕ
answered = record lost { operation = λ c. returned c }

abbrev times : ℕ → Round ℕ → List (Round ℕ)
times zero r = []
times (suc n) r = r ∷ times n r

times-IsShort : (n : ℕ) (r : Round ℕ) → IsShort r → All IsShort (times n r)
times-IsShort zero r h = tt
times-IsShort (suc n) r h = (h, times-IsShort n r h)

length-times : (n : ℕ) (r : Round ℕ) → length (times n r) ≡ n
length-times zero r = refl
length-times (suc n) r = omega (arith, length-times n r)

abbrev any_loop : Loop
any_loop = record { manager = fresh; now = 0; delay = 0; failing_since = none }

run_ends_example : run none (times 125 lost) fresh 0 ≢ running any_loop
run_ends_example =
    run_ends none (times 125 lost) fresh 0 (times-IsShort 125 lost (omega arith))
      (omega (arith, length-times 125 lost)) any_loop

run-Explained_example :
    Explained
      (some 400)
      0
      (lost ∷ lost ∷ lost ∷ [])
      (run (some 400) (lost ∷ lost ∷ lost ∷ []) fresh 0)
run-Explained_example = run-Explained (some 400) (lost ∷ lost ∷ lost ∷ []) fresh 0

run-IsSound_example : IsSound (left (run none (lost ∷ answered ∷ []) reconnected 0))
run-IsSound_example = run-IsSound none (lost ∷ answered ∷ []) reconnected 0 reconnected-IsSound

-- the second attempt has a new connection
second_answers :
    run none (lost ∷ answered ∷ []) fresh 0
    ≡ success 1 (record { cached = some 1; closed = false; opened = 2; shut = 0 ∷ [] })
unfolding run run_from round attempt get settle is_transient back_off charge discard
second_answers = refl

-- the pause is cut at the deadline, and the next failure is reported as late
late_at :
    run (some 400) (lost ∷ lost ∷ lost ∷ []) fresh 0
    ≡ late 400 (record { cached = none; closed = false; opened = 3; shut = 2 ∷ 1 ∷ 0 ∷ [] })
unfolding run run_from round attempt get settle is_transient back_off charge discard
late_at = refl

-- the cached certificate is denied, and the renewed one is accepted
abbrev usable_disk : Disk
usable_disk = record { key_file = some 7; certificate_file = some 1; meta_file = some 9000000 }

abbrev quiet : Store.Answers
quiet = record {
  asked_at = 0;
  waited = λ s. s;
  now = 0;
  generated = 8;
  reply = Errors.ok (record { line = certified 2; expires_at = date 9500000 });
  others = λ d. d;
  then_now = 0;
  writes = record {
    mkdir_fails = false;
    key_fails = false;
    chmod_fails = false;
    certificate_fails = false;
    meta_fails = false;
    left = none;
  };
}

abbrev denying : Open.Answers
denying = record {
  has_ssh = true;
  ensuring = quiet;
  first = λ p c. raised SshError.permission_denied;
  renewing = quiet;
  second = λ p c. returned 33;
  remember = λ k. Errors.ok k;
}

abbrev fresh_host : Host
fresh_host = record { store = fresh_store usable_disk; pinned = none; tried = []; closed = 0 }

open_connection-Careful_example : Careful denying fresh_host (open_connection denying fresh_host)
open_connection-Careful_example = open_connection-Careful denying fresh_host

renewed_key_pinned : (open_connection denying fresh_host).1.pinned ≡ some 33
unfolding open_connection ensure ensure_locked renew renew_locked replacement mint load is_usable
renewed_key_pinned = refl
