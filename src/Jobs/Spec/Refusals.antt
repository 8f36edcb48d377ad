-- ===== src/Jobs/Spec/Refusals.antt =====
-- What the validation of a job specification raises.
use thunder_sandbox.Prelude.{◌≡◌, Bool, true, false, Option, none, some, List, [], ◌∷◌, Text}
use thunder_sandbox.Common.Errors.{Error, Result, ok, err, value_error, guard, ◌>>=◌}
use thunder_sandbox.Jobs.Paths.{is_job_id, validate_job_id}
use thunder_sandbox.Jobs.Spec.{
  Env, validate_text, validate_arguments, validate_optional, validate_env_value, validate_env,
  is_env_name, make_spec,
}

-- it returns, or it raises a `ValueError`
pub record IsTame {ℓ} {A : Type ℓ} (r : Result A) : Type ℓ where
  pub at : (e : Error) → r ≡ err e → e ≡ value_error

module _ {ℓ} {A : Type ℓ} where
  ok-IsTame : (a : A) → IsTame (ok a)
  ok-IsTame a = record { at = λ e h. absurd (cc) }

  error-IsTame : IsTame {A = A} (err value_error)
  error-IsTame = record { at = λ e h. cc }

bind-IsTame {ℓ} :
    {A B : Type ℓ} (m : Result A) (f : A → Result B)
    → IsTame m
    → ((a : A) → IsTame (f a))
    → IsTame (m >>= f)
unfolding ◌>>=◌
bind-IsTame (ok a) f h k = k a
bind-IsTame (err e) f h k = record { at = λ x y. h.at x (cc) }

guard-IsTame : (b : Bool) → IsTame (guard b value_error)
guard-IsTame true = ok-IsTame tt
guard-IsTame false = error-IsTame

ruleset tame = (ok-IsTame, bind-IsTame, guard-IsTame)

validate_text-IsTame : (b : Bool) (t : Text) → IsTame (validate_text b t)
validate_text-IsTame b t = search tame

validate_arguments-IsTame : (ts : List Text) → IsTame (validate_arguments ts)
unfolding validate_arguments
validate_arguments-IsTame [] = ok-IsTame tt
validate_arguments-IsTame (t ∷ ts) =
    bind-IsTame {0} _ _ (validate_text-IsTame true t) λ u. validate_arguments-IsTame ts

validate_optional-IsTame : (o : Option Text) → IsTame (validate_optional o)
unfolding validate_optional
validate_optional-IsTame none = ok-IsTame tt
validate_optional-IsTame (some t) = validate_text-IsTame false t

validate_env_value-IsTame : (o : Option Text) → IsTame (validate_env_value o)
unfolding validate_env_value
validate_env_value-IsTame none = ok-IsTame tt
validate_env_value-IsTame (some t) = validate_text-IsTame true t

validate_env-IsTame : (e : Env) → IsTame (validate_env e)
unfolding validate_env
validate_env-IsTame [] = ok-IsTame tt
validate_env-IsTame ((n, v) ∷ rest) =
    bind-IsTame {0} _ _ (guard-IsTame (is_env_name n))
      λ u. bind-IsTame {0} _ _ (validate_env_value-IsTame v) λ w. validate_env-IsTame rest

validate_job_id-IsTame : (t : Text) → IsTame (validate_job_id t)
unfolding validate_job_id
validate_job_id-IsTame t = bind-IsTame {0} _ _ (guard-IsTame (is_job_id t)) λ u. ok-IsTame t

pub make_spec-IsTame :
    (job_id : Text) (argv : List Text) (workdir : Option Text) (env : Option Env)
    (container : Option Text) (stdout stderr : Text) (retain : Bool) (user : Option Text)
    → IsTame (make_spec job_id argv workdir env container stdout stderr retain user)
unfolding make_spec
make_spec-IsTame job_id argv workdir env container stdout stderr retain user =
    search
      (
        tame, validate_job_id-IsTame, validate_arguments-IsTame, validate_optional-IsTame,
        validate_env-IsTame,
      )
      depth 24
