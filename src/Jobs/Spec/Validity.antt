-- ===== src/Jobs/Spec/Validity.antt =====
-- What the validation of a job specification accepts.
use thunder_sandbox.Prelude.{
  ◌≡◌, ◌≢◌, ◌↔◌, ◌⊎◌, inl, inr, refl, subst, Bool, true, false, Option, none, some, List, [], ◌∷◌,
  Text, codes, text_eq, text_eq→eq, has_char, All, arith, Bool-cases,
}
use thunder_sandbox.Common.Errors.{ok, ◌>>=◌, guard-eq-ok, Yields, Yields-bind, Yields-ok}
use thunder_sandbox.Jobs.Paths.{is_job_id, validate_job_id}
use thunder_sandbox.Jobs.Spec.{
  Env, JobSpec, validate_arguments, validate_optional, is_output_mode, validate_env_value,
  validate_env, make_spec, has_command, env_items,
}

-- no NUL
abbrev pub IsClean : Text → Type 0
IsClean t = has_char 0 t ≡ false

abbrev pub IsFilled : Option Text → Type 0
IsFilled none = Unit
IsFilled (some t) = (t ≢ []) × IsClean t

abbrev pub IsEnvValue : Option Text → Type 0
IsEnvValue none = Unit
IsEnvValue (some v) = IsClean v

abbrev pub IsEnvItem : Text × Option Text → Type 0
IsEnvItem (n, v) = (n ≢ []) × (has_char b'=' n ≡ false) × IsClean n × IsEnvValue v

abbrev pub IsOutputMode : Text → Type 0
IsOutputMode t = (t ≡ codes "capture") ⊎ (t ≡ codes "discard")

pub record IsValid (s : JobSpec) : Type 0 where
  pub id : is_job_id s.job_id ≡ true
  pub command : s.argv ≢ []
  pub arguments : All IsClean s.argv
  pub workdir : IsFilled s.workdir
  pub user : IsFilled s.user
  pub container : IsFilled s.container
  pub stdout : IsOutputMode s.stdout
  pub stderr : IsOutputMode s.stderr
  pub env : All IsEnvItem s.env

arguments_ok : (ts : List Text) → All IsClean ts → validate_arguments ts ≡ ok tt
unfolding validate_arguments ◌>>=◌
arguments_ok [] h = refl
arguments_ok (t ∷ ts) h = ground (arith, arguments_ok ts h.1)

ok_arguments : (ts : List Text) → validate_arguments ts ≡ ok tt → All IsClean ts
unfolding validate_arguments ◌>>=◌
ok_arguments [] h = tt
ok_arguments (t ∷ ts) h = (ground arith, ok_arguments ts (ground arith))

optional_ok : (o : Option Text) → IsFilled o → validate_optional o ≡ ok tt
unfolding validate_optional ◌>>=◌
optional_ok none h = refl
optional_ok (some []) h = absurd (h.0 refl)
optional_ok (some (c ∷ t)) h = ground arith

ok_optional : (o : Option Text) → validate_optional o ≡ ok tt → IsFilled o
unfolding validate_optional ◌>>=◌
ok_optional none h = tt
ok_optional (some []) h = ground arith
ok_optional (some (c ∷ t)) h = (λ e. cc, ground arith)

env_value_ok : (v : Option Text) → IsEnvValue v → validate_env_value v ≡ ok tt
unfolding validate_env_value ◌>>=◌
env_value_ok none h = refl
env_value_ok (some t) h = ground arith

ok-IsEnvValue : (v : Option Text) → validate_env_value v ≡ ok tt → IsEnvValue v
unfolding validate_env_value ◌>>=◌
ok-IsEnvValue none h = tt
ok-IsEnvValue (some t) h = ground arith

env_ok : (e : Env) → All IsEnvItem e → validate_env e ≡ ok tt
unfolding validate_env ◌>>=◌
env_ok [] h = refl
env_ok (([], v) ∷ rest) h = absurd (h.0.0 refl)
env_ok ((c ∷ n, v) ∷ rest) h = ground (arith, env_value_ok v h.0.3, env_ok rest h.1)

ok_env : (e : Env) → validate_env e ≡ ok tt → All IsEnvItem e
unfolding validate_env ◌>>=◌
ok_env [] h = tt
ok_env (([], v) ∷ rest) h = ground arith
ok_env ((c ∷ n, v) ∷ rest) h = (
  (λ e. cc, ground arith, ground arith, ok-IsEnvValue v (ground arith)),
  ok_env rest (ground arith),
)

mode_ok : (t : Text) → IsOutputMode t → is_output_mode t ≡ true
mode_ok t (inl e) = rw e
mode_ok t (inr e) = rw e

ok_mode : (t : Text) → is_output_mode t ≡ true → IsOutputMode t
ok_mode t h = elim (Bool-cases (text_eq t (codes "capture"))) [
  | inl e ↦ inl (text_eq→eq t (codes "capture") e)
  | inr e ↦ inr (text_eq→eq t (codes "discard") (ground arith))
]

command_ok : (ts : List Text) → ts ≢ [] → has_command ts ≡ true
command_ok [] h = absurd (h refl)
command_ok (t ∷ ts) h = refl

ok_command : (ts : List Text) → has_command ts ≡ true → ts ≢ []
ok_command [] h = absurd (cc)
ok_command (t ∷ ts) h = λ e. cc

ok_id : (t : Text) {u : Text} → validate_job_id t ≡ ok u → is_job_id t ≡ true
unfolding validate_job_id ◌>>=◌
ok_id t h = ground arith

-- a valid specification passes every check and is returned as it is
pub make_spec-valid :
    (s : JobSpec)
    → IsValid s
    → make_spec s.job_id s.argv s.workdir (some s.env) s.container s.stdout s.stderr s.retain s.user
      ≡ ok s
unfolding make_spec validate_job_id ◌>>=◌
make_spec-valid s h = simp (
  h.id,
  command_ok s.argv h.command,
  arguments_ok s.argv h.arguments,
  optional_ok s.workdir h.workdir,
  optional_ok s.user h.user,
  optional_ok s.container h.container,
  mode_ok s.stdout h.stdout,
  mode_ok s.stderr h.stderr,
  env_ok s.env h.env,
)

abbrev spec_of :
    Text
    → List Text
    → Option Text
    → Option Env
    → Option Text
    → Text
    → Text
    → Bool
    → Option Text
    → JobSpec
spec_of job_id argv workdir env container stdout stderr retain user = record {
  job_id = job_id;
  argv = argv;
  workdir = workdir;
  env = env_items env;
  container = container;
  stdout = stdout;
  stderr = stderr;
  retain = retain;
  user = user;
}

-- what passes the checks is valid
pub make_spec-IsValid :
    (job_id : Text) (argv : List Text) (workdir : Option Text) (env : Option Env)
    (container : Option Text) (stdout stderr : Text) (retain : Bool) (user : Option Text)
    → Yields IsValid (make_spec job_id argv workdir env container stdout stderr retain user)
unfolding make_spec
make_spec-IsValid job_id argv workdir env container stdout stderr retain user =
    Yields-bind _ _ λ i e_id. Yields-bind _ _ λ _ e_command. Yields-bind _ _ λ _ e_arguments.
      Yields-bind _ _ λ _ e_workdir. Yields-bind _ _ λ _ e_user. Yields-bind _ _ λ _ e_container.
        Yields-bind _ _ λ _ e_stdout. Yields-bind _ _ λ _ e_stderr. Yields-bind _ _ λ _ e_env.
          Yields-ok _ (record {
            id = ok_id job_id e_id;
            command = ok_command argv (guard-eq-ok _ _ e_command);
            arguments = ok_arguments argv e_arguments;
            workdir = ok_optional workdir e_workdir;
            user = ok_optional user e_user;
            container = ok_optional container e_container;
            stdout = ok_mode stdout (guard-eq-ok _ _ e_stdout);
            stderr = ok_mode stderr (guard-eq-ok _ _ e_stderr);
            env = ok_env (env_items env) e_env;
          })

make_spec-eq :
    (job_id : Text) (argv : List Text) (workdir : Option Text) (env : Option Env)
    (container : Option Text) (stdout stderr : Text) (retain : Bool) (user : Option Text)
    → Yields
        (λ s. s ≡ spec_of job_id argv workdir env container stdout stderr retain user)
        (make_spec job_id argv workdir env container stdout stderr retain user)
unfolding make_spec
make_spec-eq job_id argv workdir env container stdout stderr retain user =
    search (Yields-bind, Yields-ok) depth 24

valid-made :
    (job_id : Text) (argv : List Text) (workdir : Option Text) (env : Option Env)
    (container : Option Text) (stdout stderr : Text) (retain : Bool) (user : Option Text)
    → IsValid (spec_of job_id argv workdir env container stdout stderr retain user)
    → make_spec job_id argv workdir env container stdout stderr retain user
      ≡ ok (spec_of job_id argv workdir env container stdout stderr retain user)
unfolding make_spec
valid-made job_id argv workdir none container stdout stderr retain user h = make_spec-valid _ h
valid-made job_id argv workdir (some e) container stdout stderr retain user h = make_spec-valid _ h

-- The checks of `JobSpec` let through exactly the valid specifications, and change nothing but that
-- a missing environment becomes an empty one.
pub make_spec_iff :
    (job_id : Text) (argv : List Text) (workdir : Option Text) (env : Option Env)
    (container : Option Text) (stdout stderr : Text) (retain : Bool) (user : Option Text)
    (s : JobSpec)
    → (make_spec job_id argv workdir env container stdout stderr retain user ≡ ok s)
      ↔ (IsValid s × (s ≡ spec_of job_id argv workdir env container stdout stderr retain user))
make_spec_iff job_id argv workdir env container stdout stderr retain user s = (
  λ h. (
    (make_spec-IsValid job_id argv workdir env container stdout stderr retain user).at s h,
    (make_spec-eq job_id argv workdir env container stdout stderr retain user).at s h,
  ),
  λ h. rw h.1 (
      valid-made job_id argv workdir env container stdout stderr retain user
        (subst IsValid h.1 h.0)),
)
