-- ===== src/Jobs/Spec.antt =====
-- `JobSpec`: the staged command of a durable job (thunder_sandbox/asynchronous/_jobs.py).
pub mod Decode
pub mod Validity
pub mod Refusals
use thunder_sandbox.Prelude.{
  ℕ, Bool, true, false, ◌&&◌, ◌||◌, not, Option, none, some, List, [], ◌∷◌, Text, codes, text_eq,
  has_char, is_empty, pos, if◌then◌else◌,
}
use thunder_sandbox.Common.Errors.{
  Result, ok, err, value_error, type_error, key_error, ◌>>=◌, ◌>>◌, guard,
}
use thunder_sandbox.Common.Json.{Json, Items, Fields, get, equals_nat, str_items, all_str}
use thunder_sandbox.Common.Sort.{sorted}
use thunder_sandbox.Jobs.Paths.{is_job_id, validate_job_id}

-- a mapping by its items, in their order
abbrev pub Env : Type 0
Env = List (Text × Option Text)

pub record JobSpec : Type 0 where
  pub job_id : Text
  pub argv : List Text
  pub workdir : Option Text
  pub env : Env
  pub container : Option Text
  pub stdout : Text
  pub stderr : Text
  pub retain : Bool
  pub user : Option Text

-- `_validate_text`
abbrev pub validate_text : Bool → Text → Result (Unit {0})
validate_text allow_empty t = do
  guard (allow_empty || not (is_empty t)) value_error
  guard (not (has_char 0 t)) value_error

unfoldable pub validate_arguments : List Text → Result (Unit {0})
validate_arguments [] = ok tt
validate_arguments (t ∷ ts) = do validate_text true t; validate_arguments ts

unfoldable pub validate_optional : Option Text → Result (Unit {0})
validate_optional none = ok tt
validate_optional (some t) = validate_text false t

abbrev pub is_output_mode : Text → Bool
is_output_mode t = text_eq t (codes "capture") || text_eq t (codes "discard")

abbrev pub is_env_name : Text → Bool
is_env_name n = not (is_empty n) && (not (has_char b'=' n) && not (has_char 0 n))

unfoldable pub validate_env_value : Option Text → Result (Unit {0})
validate_env_value none = ok tt
validate_env_value (some v) = validate_text true v

unfoldable pub validate_env : Env → Result (Unit {0})
validate_env [] = ok tt
validate_env ((n, v) ∷ rest) = do
  guard (is_env_name n) value_error
  validate_env_value v
  validate_env rest

abbrev pub has_command : List Text → Bool
has_command [] = false
has_command (t ∷ ts) = true

abbrev pub env_items : Option Env → Env
env_items none = []
env_items (some e) = e

-- the checks of `__post_init__`, in their order; a missing environment is stored as an empty one
unfoldable pub make_spec :
    Text
    → List Text
    → Option Text
    → Option Env
    → Option Text
    → Text
    → Text
    → Bool
    → Option Text
    → Result JobSpec
make_spec job_id argv workdir env container stdout stderr retain user = do
  validate_job_id job_id
  guard (has_command argv) value_error
  validate_arguments argv
  validate_optional workdir
  validate_optional user
  validate_optional container
  guard (is_output_mode stdout) value_error
  guard (is_output_mode stderr) value_error
  validate_env (env_items env)
  ok (record {
    job_id = job_id;
    argv = argv;
    workdir = workdir;
    env = env_items env;
    container = container;
    stdout = stdout;
    stderr = stderr;
    retain = retain;
    user = user;
  })

abbrev text_or_null : Option Text → Json
text_or_null none = Json.null
text_or_null (some t) = Json.str t

abbrev env_fields : Env → Fields
env_fields [] = Fields.done
env_fields ((n, v) ∷ rest) = Fields.field n (text_or_null v) (env_fields rest)

-- the object that `to_json` dumps: its keys are sorted, and so are those of the environment
unfoldable pub to_value : JobSpec → Json
to_value s = Json.obj (
    Fields.field (codes "argv") (Json.arr (str_items s.argv)) (
      Fields.field (codes "container") (text_or_null s.container) (
        Fields.field (codes "env") (Json.obj (env_fields (sorted s.env))) (
          Fields.field (codes "job_id") (Json.str s.job_id) (
            Fields.field (codes "protocol") (Json.int (pos 1)) (
              Fields.field (codes "retain") (Json.bool s.retain) (
                Fields.field (codes "stderr") (Json.str s.stderr) (
                  Fields.field (codes "stdout") (Json.str s.stdout) (
                    Fields.field (codes "user") (text_or_null s.user)
                      (Fields.field (codes "workdir") (text_or_null s.workdir) Fields.done))))))))))
