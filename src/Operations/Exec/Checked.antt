-- ===== src/Operations/Exec/Checked.antt =====
-- What `exec` lets through, and what it comes to (thunder_sandbox/asynchronous/sandbox.py).
use thunder_sandbox.Prelude.{
  ℕ, ◌<◌, ◌≡◌, ◌≢◌, refl, inl, inr, Bool, true, false, ◌&&◌, ◌||◌, not, Option, none, some, List,
  [], ◌∷◌, Text, All, arith, Bool-cases, is_empty, has_char, ltb, ltb→lt, if◌then◌else◌,
}
use thunder_sandbox.Common.Errors.{Error, ErrorKind}
use thunder_sandbox.Ssh.Manager.{is_transient, Reply, returned, raised}
use thunder_sandbox.Ssh.Retry.{Round, Outcome, success, failure, exhausted, late, running}
use thunder_sandbox.Ssh.Retry.Ends.{Explained, run-Explained}
use thunder_sandbox.Jobs.Spec.{JobSpec, has_command, is_output_mode}
use thunder_sandbox.Jobs.Status.{JobStatus}
use thunder_sandbox.Operations.Command.{◌>>=◌, ◌>>◌, returns, require, Call, ended}
use thunder_sandbox.Operations.Command.Ends.{Ends, Ends-bind, Ends-mono}
use thunder_sandbox.Operations.Jobs.{is_transport, Request, spec_of_request, launch_detached_job}
use thunder_sandbox.Operations.Jobs.Recovery.{Of}
use thunder_sandbox.Operations.Jobs.Launch.{
  Refused, is_malformed, is_lost, Foreign, Launched, translated, launch_detached_job-Launched,
}
use thunder_sandbox.Operations.Exec.{
  max_argument_bytes, encoded_size, size_allowed, check_sizes, user_allowed, is_capture, texts_of,
  check_exec, session_or_lost, create_process, Executed, durable, attached, container_of, Answers,
  as_durable, exec,
}

-- the exceptions of `exec`
pub data Rejected : Error → Type 0 where
  is_invalid : {e : Error} → Of ErrorKind.invalid_request e → Rejected e
  is_refused : {e : Error} → Refused e → Rejected e

-- shorter than the limit of Linux on one argument
pub record IsShort (t : Text) : Type 0 where
  pub bytes : ℕ
  pub encoded : encoded_size t ≡ some bytes
  pub short : bytes < max_argument_bytes

abbrev pub IsUser : Bool → Option Text → Type 0
IsUser image none = Unit
IsUser image (some u) = (u ≢ []) × (has_char 0 u ≡ false) × (image ≡ true)

abbrev pub IsPlain : Bool → Request → Type 0
IsPlain true q = (is_capture q.stdout ≡ true) × (is_capture q.stderr ≡ true) × (q.retain ≡ false)
IsPlain false q = Unit

-- what the checks establish
pub record Checks (image pty : Bool) (q : Request) : Type 0 where
  pub user : IsUser image q.user
  pub command : q.argv ≢ []
  pub sizes : All IsShort (texts_of q)
  pub stdout : is_output_mode q.stdout ≡ true
  pub stderr : is_output_mode q.stderr ≡ true
  pub terminal : IsPlain pty q

require-Ends :
    (b : Bool) → Ends (λ u. b ≡ true) Foreign Rejected (require b ErrorKind.invalid_request)
require-Ends true = refl
require-Ends false = is_invalid refl

user_text :
    (u : Text) → (not (is_empty u) && not (has_char 0 u)) ≡ true → (u ≢ []) × (has_char 0 u ≡ false)
user_text [] h = absurd (cc)
user_text (c ∷ cs) h = (λ e. cc, ground arith)

IsUser-Ends :
    (image : Bool) (o : Option Text)
    → Ends (λ u. IsUser image o) Foreign Rejected (user_allowed image o)
IsUser-Ends image none = tt
IsUser-Ends image (some u) =
    Ends-bind (λ v. (not (is_empty u) && not (has_char 0 u)) ≡ true) (λ v. IsUser image (some u))
      Foreign Rejected (require (not (is_empty u) && not (has_char 0 u)) ErrorKind.invalid_request)
      _ (require-Ends _)
      λ v h.
        Ends-mono _ (λ w. IsUser image (some u)) Foreign Foreign Rejected Rejected
          (require image ErrorKind.invalid_request) (λ w k. let (f, n) = user_text u h in (f, n, k))
          (λ e k. k) (λ e k. k) (require-Ends image)

size-Ends :
    (t : Text) (o : Option ℕ)
    → encoded_size t ≡ o
    → Ends (λ u. IsShort t) Foreign Rejected (size_allowed o)
size-Ends t none h = is_refused (is_malformed refl)
size-Ends t (some n) h = elim (Bool-cases (ltb n max_argument_bytes)) [
  | inl u ↦ rw u (record { bytes = n; encoded = h; short = ltb→lt n max_argument_bytes u })
  | inr u ↦ rw u (is_invalid refl)
]

sizes-Ends : (ts : List Text) → Ends (λ u. All IsShort ts) Foreign Rejected (check_sizes ts)
unfolding check_sizes
sizes-Ends [] = tt
sizes-Ends (t ∷ ts) =
    Ends-bind (λ u. IsShort t) (λ u. All IsShort (t ∷ ts)) Foreign Rejected
      (size_allowed (encoded_size t)) _ (size-Ends t (encoded_size t) refl)
      λ u h.
        Ends-mono _ (λ u. All IsShort (t ∷ ts)) Foreign Foreign Rejected Rejected (check_sizes ts)
          (λ v k. (h, k)) (λ e k. k) (λ e k. k) (sizes-Ends ts)

has_command-ne-nil : (ts : List Text) → has_command ts ≡ true → ts ≢ []
has_command-ne-nil [] h e = cc
has_command-ne-nil (t ∷ ts) h e = cc

plain_of :
    (pty : Bool) (q : Request)
    → not (pty && (not (is_capture q.stdout) || (not (is_capture q.stderr) || q.retain))) ≡ true
    → IsPlain pty q
plain_of true q h = (ground arith, ground arith, ground arith)
plain_of false q h = tt

module _ (image pty : Bool) (q : Request) where
  abbrev Passed : Unit {0} → Type 0
  Passed u = Checks image pty q

  check_exec-Ends : Ends Passed Foreign Rejected (check_exec image pty q)
  unfolding check_exec
  check_exec-Ends =
      Ends-bind (λ u. IsUser image q.user) Passed Foreign Rejected _ _ (IsUser-Ends image q.user)
        λ u user.
          Ends-bind (λ u. has_command q.argv ≡ true) Passed Foreign Rejected _ _ (require-Ends _)
            λ u command.
              Ends-bind (λ u. All IsShort (texts_of q)) Passed Foreign Rejected _ _ (sizes-Ends _)
                λ u sizes.
                  Ends-bind (λ u. is_output_mode q.stdout ≡ true) Passed Foreign Rejected _ _
                    (require-Ends _)
                    λ u out.
                      Ends-bind (λ u. is_output_mode q.stderr ≡ true) Passed Foreign Rejected _ _
                        (require-Ends _)
                        λ u errors.
                          Ends-mono _ Passed Foreign Foreign Rejected Rejected _
                            (λ v plain. record {
                              user = user;
                              command = has_command-ne-nil q.argv command;
                              sizes = sizes;
                              stdout = out;
                              stderr = errors;
                              terminal = plain_of pty q plain;
                            })
                            (λ e k. k) (λ e k. k) (require-Ends _)

connection-Ends :
    (deadline : Option ℕ) (start : ℕ) (rs : List (Round ℕ)) (o : Outcome ℕ)
    → Explained deadline start rs o
    → Ends (λ c. Unit {0}) (λ e. is_transient e ≡ false) (Of ErrorKind.connection) (ended o)
connection-Ends deadline start rs (success c m) h = tt
connection-Ends deadline start rs (failure e m) h = h
connection-Ends deadline start rs (exhausted t m) h = refl
connection-Ends deadline start rs (late t m) h = refl
connection-Ends deadline start rs (running l) h = tt

session-Ends : (r : Reply (Unit {0})) → Ends (λ u. Unit {0}) Foreign Refused (session_or_lost r)
session-Ends (returned u) = tt
session-Ends (raised e) = elim (Bool-cases (is_transport e)) [
  | inl u ↦ rw u (is_lost refl)
  | inr u ↦ rw u u
]

create_process-Ends :
    (c : Call ℕ) (opens : ℕ → Reply (Unit {0}))
    → Ends (λ u. Unit {0}) Foreign Refused (create_process c opens)
unfolding create_process
create_process-Ends c opens =
    Ends-bind (λ n. Unit {0}) (λ u. Unit {0}) Foreign Refused _ _
      (translated (λ n. Unit {0}) _
        (connection-Ends c.deadline c.now c.rounds _
          (run-Explained c.deadline c.rounds c.manager c.now)))
      λ n u. session-Ends (opens n)

-- a durable job was launched, or a session was opened
pub data Done (image pty : Bool) (q : Request) (a : Answers) : Executed → Type 0 where
  launched :
      {s : JobSpec} {t : JobStatus}
      → pty ≡ false
      → Launched (spec_of_request a.job_id (container_of image) q) a.submission.rounds (s, t)
      → Done image pty q a (durable s t)
  opened : pty ≡ true → Done image pty q a attached

abbrev pub Finished : Bool → Bool → Request → Answers → Executed → Type 0
Finished image pty q a x = Checks image pty q × Done image pty q a x

branch-Ends :
    (image pty : Bool) (q : Request) (a : Answers)
    → Ends (Done image pty q a) Foreign Refused (
        if pty
        then create_process a.connection a.opens >> returns attached
        else launch_detached_job a.job_id (container_of image) q a.submission >>= as_durable)
branch-Ends image true q a =
    Ends-bind (λ u. Unit {0}) (Done image true q a) Foreign Refused _ _
      (create_process-Ends a.connection a.opens) λ u v. opened refl
branch-Ends image false q a =
    Ends-bind (Launched (spec_of_request a.job_id (container_of image) q) a.submission.rounds)
      (Done image false q a) Foreign Refused _ _
      (launch_detached_job-Launched a.job_id (container_of image) q a.submission)
      λ x h. launched refl h

-- `exec` starts something only after its checks: a user who is named belongs to an image and is a
-- text without NUL, there is a command, each argument and each `NAME=value` is shorter in bytes than
-- the limit of Linux, the output modes are known, and a terminal goes with none of the options of
-- durable jobs. What it then starts is a session if a terminal was asked for, and otherwise the durable
-- job that was asked for. It raises exceptions of the client's own or a `ValueError`, and passes no
-- exception of the transport on.
pub exec-Finished :
    (image pty : Bool) (q : Request) (a : Answers)
    → Ends (Finished image pty q a) Foreign Rejected (exec image pty q a)
unfolding exec
exec-Finished image pty q a =
    Ends-bind (λ u. Checks image pty q) (Finished image pty q a) Foreign Rejected _ _
      (check_exec-Ends image pty q)
      λ u h.
        Ends-mono _ (Finished image pty q a) Foreign Foreign Refused Rejected _ (λ x k. (h, k))
          (λ e k. k) (λ e k. is_refused k) (branch-Ends image pty q a)
