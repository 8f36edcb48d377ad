-- ===== src/Jobs/State.antt =====
-- The states of a durable job and the transitions that a reader accepts
-- (thunder_sandbox/asynchronous/_jobs.py).
use thunder_sandbox.Prelude.{
  ℕ, ◌<◌, ◌≡◌, ◌↔◌, refl, Bool, true, false, Option, none, some, List, [], ◌∷◌, Text, codes,
  text_eq, arith, if◌then◌else◌, any, ◌==◌,
}

pub data JobState : Type 0 where
  prepared starting running succeeded failed terminated : JobState

unfoldable pub terminal : JobState → Bool
terminal JobState.succeeded = true
terminal JobState.failed = true
terminal JobState.terminated = true
terminal _ = false

-- the member's text in JSON
unfoldable pub value : JobState → Text
value JobState.prepared = codes "prepared"
value JobState.starting = codes "starting"
value JobState.running = codes "running"
value JobState.succeeded = codes "succeeded"
value JobState.failed = codes "failed"
value JobState.terminated = codes "terminated"

abbrev members : List JobState
members =
    JobState.prepared ∷ JobState.starting ∷ JobState.running ∷ JobState.succeeded ∷ JobState.failed
    ∷ JobState.terminated ∷ []

-- `JobState(text)`: the member with that value; `none` is Python's `ValueError`
find_member : Text → List JobState → Option JobState
unfolding value
find_member t [] = none
find_member t (s ∷ ss) = if text_eq (value s) t then some s else find_member t ss

unfoldable pub of_value : Text → Option JobState
unfolding find_member
of_value t = find_member t members

-- the place of a member in the class
abbrev pub index : JobState → ℕ
index JobState.prepared = 0
index JobState.starting = 1
index JobState.running = 2
index JobState.succeeded = 3
index JobState.failed = 4
index JobState.terminated = 5

-- `==` of two members
abbrev pub state_eq : JobState → JobState → Bool
state_eq a b = index a == index b

-- the table `_TRANSITIONS`
unfoldable pub transitions : JobState → List JobState
transitions JobState.prepared =
    JobState.starting ∷ JobState.running ∷ JobState.succeeded ∷ JobState.failed
    ∷ JobState.terminated ∷ []
transitions JobState.starting =
    JobState.running ∷ JobState.succeeded ∷ JobState.failed ∷ JobState.terminated ∷ []
transitions JobState.running = JobState.succeeded ∷ JobState.failed ∷ JobState.terminated ∷ []
transitions JobState.succeeded = []
transitions JobState.failed = []
transitions JobState.terminated = []

unfoldable pub can_transition : JobState → JobState → Bool
unfolding transitions
can_transition previous following = any (λ s. state_eq s following) (transitions previous)

-- how far a job has come
abbrev pub stage : JobState → ℕ
stage JobState.prepared = 0
stage JobState.starting = 1
stage JobState.running = 2
stage _ = 3

pub state_eq→eq : (a b : JobState) → state_eq a b ≡ true → a ≡ b
state_eq→eq a b h = ground arith

-- A state may advance to another exactly when that one is at a later stage.
pub can_transition_iff : (a b : JobState) → (can_transition a b ≡ true) ↔ (stage a < stage b)
unfolding can_transition
can_transition_iff JobState.prepared b = ground arith
can_transition_iff JobState.starting b = ground arith
can_transition_iff JobState.running b = ground arith
can_transition_iff _ b = ground arith

pub of_value-value : (s : JobState) → of_value (value s) ≡ some s
unfolding of_value
of_value-value JobState.prepared = refl
of_value-value _ = refl
