-- ===== src/Jobs/Spec/Decode.antt =====
-- `JobSpec.from_json` (thunder_sandbox/asynchronous/_jobs.py).
pub mod RoundTrip
use thunder_sandbox.Prelude.{ℕ, Bool, true, false, Option, none, some, List, [], ◌∷◌, Text, codes}
use thunder_sandbox.Common.Errors.{
  Result, ok, err, value_error, type_error, key_error, ◌>>=◌, ◌>>◌, guard,
}
use thunder_sandbox.Common.Json.{Json, Items, Fields, get, equals_nat, all_str}
use thunder_sandbox.Jobs.Spec.{JobSpec, Env, make_spec}

-- `raw[key]`
abbrev required : Option Json → Result Json
required none = err key_error
required (some j) = ok j

-- a field that is read with `raw.get(key)` and may be `None`
abbrev text_or_none : Option Json → Result (Option Text)
text_or_none none = ok none
text_or_none (some Json.null) = ok none
text_or_none (some (Json.str t)) = ok (some t)
text_or_none (some _) = err type_error

-- a field that is read with `raw.get(key, default)`
abbrev text_or : Text → Option Json → Result Text
text_or d none = ok d
text_or d (some (Json.str t)) = ok t
text_or d (some _) = err type_error

abbrev bool_or : Bool → Option Json → Result Bool
bool_or d none = ok d
bool_or d (some (Json.bool b)) = ok b
bool_or d (some _) = err type_error

abbrev as_text : Json → Result Text
as_text (Json.str t) = ok t
as_text _ = err type_error

abbrev as_texts : Json → Result (List Text)
as_texts (Json.arr is) = elim (all_str is) [ none ↦ err type_error | some ts ↦ ok ts ]
as_texts _ = err type_error

abbrev env_value : Json → Option (Option Text)
env_value Json.null = some none
env_value (Json.str t) = some (some t)
env_value _ = none

abbrev cons_item : Text → Option (Option Text) → Option Env → Option Env
cons_item n (some v) (some e) = some ((n, v) ∷ e)
cons_item n (some v) none = none
cons_item n none e = none

-- the items of an object all of whose values are `None` or `str`
abbrev env_of_fields : Fields → Option Env
env_of_fields Fields.done = some []
env_of_fields (Fields.field n j fs) = cons_item n (env_value j) (env_of_fields fs)

abbrev env_or_none : Option Json → Result (Option Env)
env_or_none none = ok none
env_or_none (some Json.null) = ok none
env_or_none (some (Json.obj fs)) = elim (env_of_fields fs) [
  | none ↦ err type_error
  | some e ↦ ok (some e)
]
env_or_none (some _) = err type_error

decode_spec : Fields → Result JobSpec
decode_spec raw = do
  guard (equals_nat 1 (get (codes "protocol") raw)) value_error
  job_value ← required (get (codes "job_id") raw)
  argv_value ← required (get (codes "argv") raw)
  job_id ← as_text job_value
  argv ← as_texts argv_value
  workdir ← text_or_none (get (codes "workdir") raw)
  env ← env_or_none (get (codes "env") raw)
  user ← text_or_none (get (codes "user") raw)
  container ← text_or_none (get (codes "container") raw)
  stdout ← text_or (codes "capture") (get (codes "stdout") raw)
  stderr ← text_or (codes "capture") (get (codes "stderr") raw)
  retain ← bool_or false (get (codes "retain") raw)
  make_spec job_id argv workdir env container stdout stderr retain user

decode_spec_value : Option Json → Result JobSpec
unfolding decode_spec
decode_spec_value none = err value_error
decode_spec_value (some (Json.obj raw)) = decode_spec raw
decode_spec_value (some _) = err type_error

-- the `except` clause: every failure is raised as `ValueError`
abbrev spec_or_value_error : Result JobSpec → Result JobSpec
spec_or_value_error (ok s) = ok s
spec_or_value_error (err e) = err value_error

-- `from_json` of what `json.loads` returns, which is `none` for a `JSONDecodeError`
unfoldable pub spec_from_json : Option Json → Result JobSpec
unfolding decode_spec_value
spec_from_json v = spec_or_value_error (decode_spec_value v)
