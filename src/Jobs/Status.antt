-- ===== src/Jobs/Status.antt =====
-- `JobStatus`: one observation of a durable job (thunder_sandbox/asynchronous/_jobs.py).
pub mod Decode
use thunder_sandbox.Prelude.{
  Bool, true, false, ◌&&◌, not, Option, none, some, Text, codes, ℤ, pos, is_non_positive, is_nat,
  is_some, if◌then◌else◌,
}
use thunder_sandbox.Common.Errors.{
  Result, ok, err, Error, value_error, type_error, key_error, ◌>>=◌, ◌>>◌, guard,
}
use thunder_sandbox.Common.Json.{Json, Fields, get, equals_nat}
use thunder_sandbox.Jobs.State.{JobState, terminal, value, of_value, state_eq}

pub record JobStatus : Type 0 where
  pub state : JobState
  pub pid : Option ℤ
  pub returncode : Option ℤ

abbrev bool_eq : Bool → Bool → Bool
bool_eq true b = b
bool_eq false b = not b

abbrev is_option_zero : Option ℤ → Bool
is_option_zero none = false
is_option_zero (some i) = is_nat 0 i

abbrev pid_allowed : Option ℤ → Bool
pid_allowed none = true
pid_allowed (some p) = not (is_non_positive p)

-- the checks of `__post_init__`, in their order
unfoldable pub make : JobState → Option ℤ → Option ℤ → Result JobStatus
unfolding terminal
make s p r = do
  guard (pid_allowed p) value_error
  guard (bool_eq (terminal s) (is_some r)) value_error
  guard (not (state_eq s JobState.succeeded && not (is_option_zero r))) value_error
  guard (not (state_eq s JobState.failed && is_option_zero r)) value_error
  ok (record { state = s; pid = p; returncode = r })

abbrev int_or_null : Option ℤ → Json
int_or_null none = Json.null
int_or_null (some i) = Json.int i

-- the object that `to_json` dumps, with its keys sorted
unfoldable pub to_value : JobStatus → Json
unfolding value
to_value s = Json.obj (
    Fields.field (codes "pid") (int_or_null s.pid) (
      Fields.field (codes "protocol") (Json.int (pos 1)) (
        Fields.field (codes "returncode") (int_or_null s.returncode)
          (Fields.field (codes "state") (Json.str (value s.state)) Fields.done))))

-- `value is not None and not isinstance(value, int)` raises; `bool` is a subclass of `int`
abbrev optional_int : Option Json → Result (Option ℤ)
optional_int none = ok none
optional_int (some Json.null) = ok none
optional_int (some (Json.int i)) = ok (some i)
optional_int (some (Json.bool b)) = ok (some (pos (if b then 1 else 0)))
optional_int (some _) = err type_error

-- `JobState(raw["state"])`
abbrev member : Option Json → Result JobState
unfolding of_value
member none = err key_error
member (some (Json.str t)) = elim (of_value t) [ none ↦ err value_error | some s ↦ ok s ]
member (some _) = err value_error

decode : Fields → Result JobStatus
unfolding of_value
decode raw = do
  guard (equals_nat 1 (get (codes "protocol") raw)) value_error
  s ← member (get (codes "state") raw)
  p ← optional_int (get (codes "pid") raw)
  r ← optional_int (get (codes "returncode") raw)
  make s p r

decode_value : Option Json → Result JobStatus
unfolding decode
decode_value none = err value_error
decode_value (some (Json.obj raw)) = decode raw
decode_value (some _) = err type_error

-- the `except` clause: every failure is raised as `ValueError`
abbrev as_value_error : Result JobStatus → Result JobStatus
as_value_error (ok s) = ok s
as_value_error (err e) = err value_error

-- `from_json` of what `json.loads` returns, which is `none` for a `JSONDecodeError`
unfoldable pub from_json : Option Json → Result JobStatus
unfolding decode_value
from_json v = as_value_error (decode_value v)
