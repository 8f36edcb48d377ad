-- ===== src/Create/Allocate/Entry.antt =====
-- How `create` begins: the checks of its options, and its client
-- (thunder_sandbox/asynchronous/sandbox.py).
use thunder_sandbox.Prelude.{Bool, false, ◌≡◌, refl, ◌⊎◌, inl, inr, true}
use thunder_sandbox.Common.Errors.{◌>>=◌, ◌>>◌, Error, Result, ok, err}
use thunder_sandbox.Create.Options.{validate_create_options}
use thunder_sandbox.Create.Allocate.{client_of, Answers, Asked}

-- the options were refused, or no client could be made
abbrev pub NoEntry : Asked → Answers → Error → Type 0
NoEntry q a e =
    (validate_create_options q.options ≡ err e)
    ⊎ ((validate_create_options q.options ≡ ok tt)
        × (q.has_client ≡ false)
        × (a.configuration ≡ err e))

client_of-cases :
    (has_client : Bool) (a : Answers) (e : Error)
    → client_of has_client a ≡ err e
    → (has_client ≡ false) × (a.configuration ≡ err e)
client_of-cases true a e = λ h. absurd (cc)
client_of-cases false a e = λ h. (refl, h)

-- what the checks and the making of a client say
abbrev pub Entered : Asked → Answers → Result (Unit {0}) → Type 0
Entered q a (err e) = NoEntry q a e
Entered q a (ok u) = validate_create_options q.options ≡ ok tt

checked-Entered :
    (q : Asked) (a : Answers) (r : Result (Unit {0}))
    → validate_create_options q.options ≡ ok tt
    → client_of q.has_client a ≡ r
    → Entered q a r
checked-Entered q a (err e) v h = let (n, c) = client_of-cases q.has_client a e h in inr (v, n, c)
checked-Entered q a (ok u) v h = v

pub entry-Entered :
    (q : Asked) (a : Answers) (r : Result (Unit {0}))
    → validate_create_options q.options ≡ r
    → Entered q a (r >> client_of q.has_client a)
unfolding ◌>>=◌
entry-Entered q a (err e) h = inl h
entry-Entered q a (ok tt) h = checked-Entered q a (client_of q.has_client a) h refl
