-- ===== src/Create/Allocate/Fate.antt =====
-- What becomes of a sandbox that is created (thunder_sandbox/asynchronous/sandbox.py).
use thunder_sandbox.Prelude.{false, codes, ◌+◌, ◌≡◌, ◌≢◌, ◌⊎◌, true, some, [], Text}
use thunder_sandbox.Common.Errors.{Error, ok, err}
use thunder_sandbox.Common.Task.{Ran, done, threw, waiting}
use thunder_sandbox.Lifecycle.Box.{ready, Box}
use thunder_sandbox.Lifecycle.Poll.{outage_grace}
use thunder_sandbox.Lifecycle.Terminate.{stop_sandbox}
use thunder_sandbox.Create.Options.{validate_create_options}
use thunder_sandbox.Create.Allocate.Entry.{NoEntry}
use thunder_sandbox.Create.Allocate.{Info, Answers, Asked, prepare, in_workspace}

-- A call of `_stop_sandbox` has ended, in the box `c`; what it raised is forgotten.
pub data IsStopped (a : Answers) (c : Box) : Type 0 where
  accepted :
      (b : Box)
      → stop_sandbox (some (b.now + outage_grace)) a.stops b ≡ (done tt, c)
      → IsStopped a c
  gave_up :
      (b : Box) (e : Error)
      → stop_sandbox (some (b.now + outage_grace)) a.stops b ≡ (threw e, c)
      → IsStopped a c

-- no sandbox was started that is known
pub data NoSandbox (q : Asked) (a : Answers) : Type 0 where
  unprepared : (e : Error) → prepare q a ≡ err e → NoSandbox q a
  not_started : (e : Error) → a.started.reply ≡ err e → NoSandbox q a
  no_id : a.started.reply ≡ ok [] → NoSandbox q a

-- the sandbox whose handle is returned
pub record Made (q : Asked) (a : Answers) (id : Text) (c : Box) : Type 0 where
  pub wanted : Text
  pub info : Info
  pub allowed : validate_create_options q.options ≡ ok tt
  pub prepared : prepare q a ≡ ok wanted
  pub started : a.started.reply ≡ ok id
  pub known : id ≢ []
  pub described : a.info.reply ≡ ok info
  pub placed : (wanted ≡ codes "main") ⊎ (info.workspace_id ≡ wanted)
  pub readied : q.has_command ≡ true → c.status ≡ ready

-- a client of the call's own is closed, and a sandbox that was started has been stopped
pub record Undone (q : Asked) (a : Answers) (c : Box) : Type 0 where
  pub before : Box
  pub released : q.has_client ≡ false → c.client_closed ≡ true
  pub kept : q.has_client ≡ true → c.client_closed ≡ before.client_closed
  pub unchanged : c ≡ record before { client_closed = c.client_closed }
  pub stopped : NoSandbox q a ⊎ IsStopped a before

abbrev pub Fate : Asked → Answers → Box → Ran Text × Box → Type 0
Fate q a b (done id, c) = Made q a id c
Fate q a b (threw e, c) = (NoEntry q a e × (c ≡ b)) ⊎ Undone q a c
Fate q a b (waiting, c) = Unit

module _ (q : Asked) (a : Answers) (b : Box) where
  -- what holds when the handle is about to be returned
  abbrev Done : Text → Ran (Unit {0}) × Box → Type 0
  Done wanted (done u, c) =
      (i : Info) × (a.info.reply ≡ ok i)
      × (in_workspace wanted i.workspace_id ≡ true)
      × (q.has_command ≡ true → c.status ≡ ready)
  Done wanted _ = Unit
