-- ===== src/Examples/Shell.antt =====
-- The command lines of thunder_sandbox/asynchronous/sandbox.py.
use thunder_sandbox.Prelude.{◌≡◌, ◌≢◌, refl, none, some, List, [], ◌∷◌, ◌++◌, Text, codes}
use thunder_sandbox.Jobs.Spec.{Env}
use thunder_sandbox.Shell.Quote.{is_safe, quote}
use thunder_sandbox.Shell.Reader.{read_tokens}
use thunder_sandbox.Shell.Command.{workdir_parts, env_item_parts, env_parts, remote_command}
use thunder_sandbox.Shell.Line.{env_words, line_tokens, read-remote_command}
use thunder_sandbox.Shell.EnvOrder.{
  env_call, unsets, assigns, assignment_words, env_ordered, env_misordered,
}

abbrev an_env : Env
an_env = (codes "HOME", none) ∷ (codes "A", some (codes "x y")) ∷ []

abbrev arguments : List Text
arguments = codes "echo" ∷ codes "it's" ∷ []

read-remote_command_example :
    read_tokens (remote_command arguments (some (codes "/work")) an_env)
    ≡ some (line_tokens arguments (some (codes "/work")) an_env)
read-remote_command_example = read-remote_command arguments (some (codes "/work")) an_env

printed_command :
    remote_command arguments (some (codes "/work")) an_env
    ≡ codes "cd /work && env -u HOME A='x y' echo 'it'\"'\"'s'"
unfolding remote_command workdir_parts env_parts env_item_parts quote is_safe
printed_command = refl

removals_first : unsets (codes "HOME" ∷ []) ++ (assigns ((codes "A", codes "x y") ∷ []) ++ []) ≢ []
removals_first e = cc

env_ordered_example :
    env_call (
      remote_command
        (codes "echo" ∷ codes "it's" ∷ [])
        none
        (unsets (codes "HOME" ∷ []) ++ (assigns ((codes "A", codes "x y") ∷ []) ++ [])))
    ≡ some (record {
      unset = codes "HOME" ∷ [];
      assigned = assignment_words ((codes "A", codes "x y") ∷ []);
      command = codes "echo" ∷ codes "it's" ∷ [];
    })
env_ordered_example =
    env_ordered (codes "HOME" ∷ []) ((codes "A", codes "x y") ∷ []) (codes "echo")
      (codes "it's" ∷ []) removals_first refl refl (refl, tt)

env_misordered_example :
    env_call (
      remote_command arguments none
        (unsets [] ++ (assigns ((codes "A", codes "1") ∷ []) ++ ((codes "HOME", none) ∷ []))))
    ≡ some (record {
      unset = [];
      assigned = assignment_words ((codes "A", codes "1") ∷ []);
      command = codes "-u" ∷ codes "HOME" ∷ (env_words [] ++ arguments);
    })
env_misordered_example =
    env_misordered [] (codes "A", codes "1") [] (codes "HOME") [] arguments refl
