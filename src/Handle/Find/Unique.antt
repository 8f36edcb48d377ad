-- ===== src/Handle/Find/Unique.antt =====
-- What a search by name comes to (thunder_sandbox/asynchronous/sandbox.py).
use thunder_sandbox.Prelude.{
  unequal, ◌≡◌, ◌≢◌, refl, ◌∙◌, ap, subst, inl, inr, Bool, false, List, [], ◌∷◌, ◌++◌, Text,
  text_eq, text_eq→eq, All, Bool-cases,
}
use thunder_sandbox.Common.Errors.{Error, ErrorKind, Result}
use thunder_sandbox.Common.Json.{Fields}
use thunder_sandbox.Common.Task.{Ran, done, threw, waiting}
use thunder_sandbox.Handle.Info.{Language, SandboxInfo, Hosts}
use thunder_sandbox.Handle.Listing.{Listed, list_sandboxes}
use thunder_sandbox.Handle.Find.{Ended, release, fails, named, only, after_listing, from_name}

module _ (name : Text) where
  -- no sandbox of the list has the name
  abbrev pub NoneNamed : List SandboxInfo → Type 0
  NoneNamed is = All (λ i. i.name ≢ name) is

  -- the sandboxes of the name, by the first of them
  data View (is : List SandboxInfo) : List SandboxInfo → Type 0 where
    no_more : NoneNamed is → View is []
    first :
        (before after : List SandboxInfo) (i : SandboxInfo) (rest : List SandboxInfo)
        → is ≡ before ++ i ∷ after
        → NoneNamed before
        → i.name ≡ name
        → named name after ≡ rest
        → View is (i ∷ rest)

  skip :
      (j : SandboxInfo) (is xs : List SandboxInfo) → j.name ≢ name → View is xs → View (j ∷ is) xs
  skip j is _ h (View.no_more n) = View.no_more (h, n)
  skip j is _ h (View.first before after i rest e n q r) =
      View.first (j ∷ before) after i rest (ap (λ z. j ∷ z) e) (h, n) q r

  named-View : (is : List SandboxInfo) → View is (named name is)
  named-View [] = View.no_more tt
  named-View (j ∷ is) = elim (Bool-cases (text_eq j.name name)) [
    | inl q ↦ rw q (View.first [] is j (named name is) refl tt (text_eq→eq _ _ q) refl)
    | inr q ↦ rw q (skip j is (named name is) (unequal _ _ q) (named-View is))
  ]

  -- What a complete listing says of a name. Of several sandboxes, two are shown.
  pub data Answer (is : List SandboxInfo) : Ran SandboxInfo → Type 0 where
    one :
        (before after : List SandboxInfo) (i : SandboxInfo)
        → is ≡ before ++ i ∷ after
        → NoneNamed before
        → i.name ≡ name
        → NoneNamed after
        → Answer is (done i)
    missing : NoneNamed is → Answer is (fails ErrorKind.not_found)
    several :
        (before between after : List SandboxInfo) (i j : SandboxInfo)
        → is ≡ before ++ i ∷ (between ++ j ∷ after)
        → i.name ≡ name
        → j.name ≡ name
        → Answer is (fails ErrorKind.conflict)

  after_first :
      (is before after : List SandboxInfo) (i : SandboxInfo) (rest : List SandboxInfo)
      → is ≡ before ++ i ∷ after
      → NoneNamed before
      → i.name ≡ name
      → View after rest
      → Answer is (only (i ∷ rest))
  after_first is before after i _ e n q (View.no_more m) = Answer.one before after i e n q m
  after_first is before after i _ e n q (View.first between behind j rest f m r g) =
      Answer.several before between behind i j (e ∙ ap (λ z. before ++ i ∷ z) f) q r

  only-Answer : (is xs : List SandboxInfo) → View is xs → Answer is (only xs)
  only-Answer is _ (View.no_more n) = Answer.missing n
  only-Answer is _ (View.first before after i rest e n q r) =
      after_first is before after i rest e n q (subst (View after) r (named-View after))

-- an answer is a handle or an exception
answers :
    (name : Text) (is : List SandboxInfo) (r : Ran SandboxInfo) → Answer name is r → r ≢ waiting
answers name is _ (Answer.one before after i _ _ _ _) = λ e. cc
answers name is _ (Answer.missing _) = λ e. cc
answers name is _ (Answer.several before between after i j _ _ _) = λ e. cc

-- What `from_name` comes to: a handle, which owns the client that the call made, if it made one, and
-- leaves it open; or an exception, before which that client is closed.
pub data Outcome (name : Text) (owns : Bool) (l : Listed) : Ended → Type 0 where
  returned :
      (i : SandboxInfo)
      → l.ended ≡ done tt
      → Answer name l.yielded (done i)
      → Outcome name owns l
          (record { result = done (record { info = i; owns_client = owns }); closed = false })
  refused :
      (e : Error)
      → l.ended ≡ done tt
      → Answer name l.yielded (threw e)
      → Outcome name owns l (record { result = threw e; closed = owns })
  failed :
      (e : Error)
      → l.ended ≡ threw e
      → Outcome name owns l (record { result = threw e; closed = owns })
  waits : l.ended ≡ waiting → Outcome name owns l (record { result = waiting; closed = false })

Answer-Outcome :
    (name : Text) (owns : Bool) (l : Listed) (r : Ran SandboxInfo)
    → l.ended ≡ done tt
    → Answer name l.yielded r
    → Outcome name owns l (release owns r)
Answer-Outcome name owns l (done i) e h = Outcome.returned i e h
Answer-Outcome name owns l (threw x) e h = Outcome.refused x e h
Answer-Outcome name owns l waiting e h = absurd (answers name l.yielded waiting h refl)

Outcome-cases :
    (name : Text) (owns : Bool) (l : Listed) (r : Ran (Unit {0}))
    → l.ended ≡ r
    → Outcome name owns l (release owns (after_listing name r l.yielded))
Outcome-cases name owns l (done tt) e =
    Answer-Outcome name owns l _ e (only-Answer name l.yielded _ (named-View name l.yielded))
Outcome-cases name owns l (threw x) e = Outcome.failed x e
Outcome-cases name owns l waiting e = Outcome.waits e

module _ (py : Language) where
  -- `from_name` returns the one sandbox of the listing that has the name, and raises `NotFoundError` if
  -- the listing has none of it and `ConflictError` if it has two; the exception of a listing that fails
  -- is passed on. A client that the call made is closed by each exception, and is otherwise open and the
  -- handle's.
  pub from_name-Outcome :
      (name : Text) (owns : Bool) (workspace : Result Text) (replies : List (Result Fields))
      (h : Hosts)
      → Outcome name owns
          (list_sandboxes py workspace replies h)
          (from_name py name owns workspace replies h).0
  unfolding from_name
  from_name-Outcome name owns workspace replies h =
      Outcome-cases name owns (list_sandboxes py workspace replies h) _ refl
