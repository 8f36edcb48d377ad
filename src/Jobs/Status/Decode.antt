-- ===== src/Jobs/Status/Decode.antt =====
-- What the validation and the decoding of a job's status accept.
use thunder_sandbox.Prelude.{
  ◌<◌, ◌≡◌, ◌≢◌, ◌↔◌, refl, subst, true, Option, none, some, ℤ, pos, negsuc, arith, ◌⊎◌, inl, inr,
}
use thunder_sandbox.Common.Errors.{Result, ok, err, value_error, Yields, Yields-bind, ◌>>=◌}
use thunder_sandbox.Common.Json.{Json, Fields}
use thunder_sandbox.Jobs.State.{JobState, of_value-value}
use thunder_sandbox.Jobs.Status.{
  JobStatus, pid_allowed, optional_int, int_or_null, as_value_error, make, to_value, from_json,
  decode,
}

abbrev pub IsPositive : Option ℤ → Type 0
IsPositive none = Unit
IsPositive (some (pos n)) = 0 < n
IsPositive (some (negsuc n)) = ⊥

-- a return code is there exactly in a terminal state, and says how the job ended
abbrev pub FitsState : JobState → Option ℤ → Type 0
FitsState JobState.succeeded r = r ≡ some (pos 0)
FitsState JobState.failed r = (r ≢ none) × (r ≢ some (pos 0))
FitsState JobState.terminated r = r ≢ none
FitsState _ r = r ≡ none

pub record IsValid (s : JobStatus) : Type 0 where
  pub positive : IsPositive s.pid
  pub fits : FitsState s.state s.returncode

make-IsPositive : (s : JobState) (p r : Option ℤ) {v : JobStatus} → make s p r ≡ ok v → IsPositive p
unfolding make ◌>>=◌
make-IsPositive s none r h = tt
make-IsPositive s (some (pos n)) r h = ground arith
make-IsPositive s (some (negsuc n)) r h = ground arith

make-fits : (s : JobState) (p r : Option ℤ) {v : JobStatus} → make s p r ≡ ok v → FitsState s r
unfolding make ◌>>=◌
make-fits JobState.prepared p r h = ground arith
make-fits _ p r h = ground arith

make-eq :
    (s : JobState) (p r : Option ℤ) {v : JobStatus}
    → make s p r ≡ ok v
    → v ≡ record { state = s; pid = p; returncode = r }
unfolding make ◌>>=◌
make-eq s p r h = ground arith

positive_allowed : (p : Option ℤ) → IsPositive p → pid_allowed p ≡ true
positive_allowed none h = refl
positive_allowed (some (pos n)) h = ground arith
positive_allowed (some (negsuc n)) h = absurd h

accepted :
    (s : JobState) (p r : Option ℤ)
    → IsPositive p
    → FitsState s r
    → make s p r ≡ ok (record { state = s; pid = p; returncode = r })
unfolding make ◌>>=◌
accepted JobState.prepared p r hp hf = ground (arith, positive_allowed p hp)
accepted _ p r hp hf = ground (arith, positive_allowed p hp)

-- The checks of `JobStatus` let through exactly the valid observations, unchanged.
pub make_iff :
    (s : JobState) (p r : Option ℤ) (v : JobStatus)
    → (make s p r ≡ ok v) ↔ (IsValid v × (v ≡ record { state = s; pid = p; returncode = r }))
make_iff s p r v = (
  λ h.
      let e = make-eq s p r h in
      (rw e (record { positive = make-IsPositive s p r h; fits = make-fits s p r h }), e),
  λ h. rw h.1 (
      accepted s p r (subst (λ (x : JobStatus). IsPositive x.pid) h.1 h.0.positive)
        (subst (λ (x : JobStatus). FitsState x.state x.returncode) h.1 h.0.fits)),
)

optional_back : (o : Option ℤ) → optional_int (some (int_or_null o)) ≡ ok o
optional_back none = refl
optional_back (some i) = refl

-- Decoding what a valid status encodes gives the status back.
pub from_json-to_value : (v : JobStatus) → IsValid v → from_json (some (to_value v)) ≡ ok v
unfolding from_json decode to_value ◌>>=◌
from_json-to_value v h = ground (
  arith,
  of_value-value v.state,
  optional_back v.pid,
  optional_back v.returncode,
  accepted v.state v.pid v.returncode h.positive h.fits,
)

made-IsValid : (s : JobState) (p r : Option ℤ) → Yields IsValid (make s p r)
made-IsValid s p r = record { at = λ v e. ((make_iff s p r v).0 e).0 }

decode-IsValid : (raw : Fields) → Yields IsValid (decode raw)
unfolding decode
decode-IsValid raw = search (Yields-bind, made-IsValid)

-- Whatever is decoded, the result is a valid status or a `ValueError`.
pub from_json_cases :
    (j : Option Json)
    → ((v : JobStatus) × (from_json j ≡ ok v) × IsValid v) ⊎ (from_json j ≡ err value_error)
unfolding from_json
from_json_cases none = inr refl
from_json_cases (some (Json.obj raw)) = go (decode raw) refl
  where
    go :
        (r : Result JobStatus)
        → decode raw ≡ r
        → ((v : JobStatus) × (as_value_error (decode raw) ≡ ok v) × IsValid v)
          ⊎ (as_value_error (decode raw) ≡ err value_error)
    go (ok v) e = inl (v, rw e, (decode-IsValid raw).at v e)
    go (err x) e = inr (rw e)
from_json_cases (some _) = inr refl
