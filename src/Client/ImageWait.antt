-- ===== src/Client/ImageWait.antt =====
-- `_wait_for_image` (thunder_sandbox/asynchronous/client.py). Times are milliseconds.
pub mod Ends
use thunder_sandbox.Prelude.{
  ℕ, ◌+◌, ◌-◌, Bool, true, false, Option, none, some, List, [], ◌∷◌, Text, codes, text_eq, is_empty,
  leb, min, if◌then◌else◌,
}
use thunder_sandbox.Common.Errors.{
  Error, ErrorKind, ThunderError, thunder_error, plain, Result, ok, err,
}
use thunder_sandbox.Common.Task.{Ran, done, threw, waiting, Task}
use thunder_sandbox.Common.Json.{Json, Fields, get}

pub record ResolvedImage : Type 0 where
  pub id : Text
  pub managed_reference : Text
  pub managed_digest : Text

-- a member that is a text and not empty
abbrev pub filled : Option Json → Option Text
filled (some (Json.str t)) = if is_empty t then none else some t
filled _ = none

-- what a reply says: the image is there, the call raises, or it goes on
pub data Verdict : Type 0 where
  resolved : ResolvedImage → Verdict
  fails : Error → Verdict
  building : Verdict

abbrev pub broken : Verdict
broken = fails (thunder_error (plain ErrorKind.connection))

abbrev pub resolved_or_broken : Text → Option Text → Option Text → Verdict
resolved_or_broken i (some r) (some d) =
    resolved (record { id = i; managed_reference = r; managed_digest = d })
resolved_or_broken i _ _ = broken

-- the failure's code, where it is a text that is not empty
abbrev pub failure : Fields → Error
failure fs = thunder_error (record {
  kind = ErrorKind.sandbox_failed;
  code = filled (get (codes "failure_code") fs);
  status = none;
  retry_after = none;
})

abbrev pub by_state : Fields → Text → Option Json → Verdict
by_state fs i (some (Json.str t)) =
    if text_eq t (codes "READY")
    then resolved_or_broken i (filled (get (codes "managed_reference") fs))
        (filled (get (codes "managed_digest") fs))
    else if text_eq t (codes "FAILED")
    then fails (failure fs)
    else if text_eq t (codes "BUILDING")
    then building
    else broken
by_state fs i _ = broken

abbrev pub with_id : Fields → Option Text → Verdict
with_id fs none = broken
with_id fs (some i) = by_state fs i (get (codes "state") fs)

-- one reply
unfoldable pub verdict : Fields → Verdict
verdict fs = with_id fs (filled (get (codes "id") fs))

-- what a request for the state comes to, how long it takes, and how much longer than asked the sleep
-- before it takes
pub record Poll : Type 0 where
  pub reply : Result Fields
  pub took : ℕ
  pub oversleep : ℕ

abbrev pub pause : Option ℕ → ℕ → ℕ
pause none now = 1000
pause (some d) now = min 1000 (d - now)

-- `_request_timeout`: `none` where it raises
unfoldable pub request_timeout : Option ℕ → ℕ → Option ℕ
request_timeout none now = some 60000
request_timeout (some d) now = if leb d now then none else some (min (d - now) 60000)

abbrev pub timed_out : Error
timed_out = thunder_error (plain ErrorKind.sandbox_timeout)

abbrev pub received : Result Fields → ℕ → (Fields → Task ℕ ResolvedImage) → Ran ResolvedImage × ℕ
received (ok fs) now k = k fs now
received (err e) now k = (threw e, now)

abbrev pub ask : Option ℕ → Poll → ℕ → (Fields → Task ℕ ResolvedImage) → Ran ResolvedImage × ℕ
ask none p now k = (threw timed_out, now)
ask (some t) p now k = received p.reply (now + p.took) k

abbrev pub decide : Verdict → ℕ → Task ℕ ResolvedImage → Ran ResolvedImage × ℕ
decide (resolved i) now k = (done i, now)
decide (fails e) now k = (threw e, now)
decide building now k = k now

-- the time after the pause
abbrev pub woken : Option ℕ → Poll → ℕ → ℕ
woken deadline p now = now + pause deadline now + p.oversleep

abbrev pub poll_again : Option ℕ → Poll → (Fields → Task ℕ ResolvedImage) → Task ℕ ResolvedImage
poll_again deadline p k now =
    ask (request_timeout deadline (woken deadline p now)) p (woken deadline p now) k

-- `_wait_for_image`, whose state is the clock
unfoldable pub wait_for_image : Option ℕ → List Poll → Fields → Task ℕ ResolvedImage
wait_for_image deadline [] fs now = decide (verdict fs) now (λ t. (waiting, t))
wait_for_image deadline (p ∷ ps) fs now =
    let rest = wait_for_image deadline ps in decide (verdict fs) now (poll_again deadline p rest)
