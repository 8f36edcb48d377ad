-- ===== src/Credentials/Store/Calls.antt =====
-- Sequences of calls on one `CredentialStore` (thunder_sandbox/asynchronous/credentials.py). The lock
-- lets one call at a time read and write the cache.
use thunder_sandbox.Prelude.{Option, List, [], ◌∷◌}
use thunder_sandbox.Common.Errors.{Result}
use thunder_sandbox.Credentials.Cache.{Credential}
use thunder_sandbox.Credentials.Store.{Store, Answers, ensure, renew}

pub data Call : Type 0 where
  ensures : Answers → Call
  renews : Answers → Option Credential → Call

abbrev pub answers : Call → Answers
answers (ensures a) = a
answers (renews a r) = a

unfoldable pub perform : Call → Store → Result Credential × Store
perform (ensures a) s = ensure a s
perform (renews a r) s = renew a r s

-- what the calls return or raise, and the store that they leave
unfoldable pub perform_all : List Call → Store → List (Result Credential) × Store
perform_all [] s = ([], s)
perform_all (c ∷ cs) s = let (rs, t) = perform_all cs (perform c s).1 in ((perform c s).0 ∷ rs, t)
