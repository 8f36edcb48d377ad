-- ===== src/Shell/EnvOrder.antt =====
-- How `env` reads the words of a remote command: options, then assignments, then the command.
use thunder_sandbox.Prelude.{
  ◌≡◌, ◌≢◌, ◌∙◌, refl, Bool, true, false, Option, none, some, List, [], ◌∷◌, ◌++◌, Text, codes,
  text_eq, has_char, map, arith, All, ◌==◌, if◌then◌else◌, append_assoc,
}
use thunder_sandbox.Shell.Reader.{Token, word, and_and, read_tokens}
use thunder_sandbox.Shell.Command.{remote_command}
use thunder_sandbox.Shell.Line.{env_words, read-remote_command}
use thunder_sandbox.Jobs.Spec.{Env}

-- what `env` removes, sets and runs
pub record EnvCall : Type 0 where
  pub unset : List Text
  pub assigned : List Text
  pub command : List Text

abbrev starts_with_dash : Text → Bool
starts_with_dash [] = false
starts_with_dash (c ∷ cs) = c == b'-'

-- the first word that is no assignment is the command
read_assignments : List Text → EnvCall
read_assignments [] = record { unset = []; assigned = []; command = [] }
read_assignments (w ∷ ws) =
    let rest = read_assignments ws in
    if has_char b'=' w
    then record rest { assigned = w ∷ rest.assigned }
    else record { unset = []; assigned = []; command = w ∷ ws }

abbrev add_unset : Text → Option EnvCall → Option EnvCall
add_unset k none = none
add_unset k (some e) = some (record e { unset = k ∷ e.unset })

-- options end at the first word that does not begin with `-`
unfoldable pub read_env : List Text → Option EnvCall
unfolding read_assignments
read_env [] = some (read_assignments [])
read_env (w ∷ []) = if starts_with_dash w then none else some (read_assignments (w ∷ []))
read_env (w ∷ k ∷ ws) =
    let rest = read_env ws in
    if text_eq w (codes "-u")
    then add_unset k rest
    else if starts_with_dash w
    then none
    else some (read_assignments (w ∷ k ∷ ws))

abbrev pub unsets : List Text → Env
unsets ks = map (λ k. (k, none)) ks

abbrev pub assigns : List (Text × Text) → Env
assigns kvs = map (λ kv. (kv.0, some kv.1)) kvs

abbrev pub assignment_words : List (Text × Text) → List Text
assignment_words [] = []
assignment_words ((k, v) ∷ kvs) = (k ++ (b'=' ∷ v)) ∷ assignment_words kvs

-- a variable's name that does not begin as an option does
abbrev pub IsPlain : Text × Text → Type 0
IsPlain (k, v) = starts_with_dash (k ++ (b'=' ∷ v)) ≡ false

has_equals : (k v : Text) → has_char b'=' (k ++ (b'=' ∷ v)) ≡ true
has_equals [] v = refl
has_equals (c ∷ k) v = ground (arith, has_equals k v)

read_assignments-words :
    (kvs : List (Text × Text)) (w : Text) (ws : List Text)
    → has_char b'=' w ≡ false
    → read_assignments (assignment_words kvs ++ (w ∷ ws))
      ≡ record { unset = []; assigned = assignment_words kvs; command = w ∷ ws }
unfolding read_assignments
read_assignments-words [] w ws h = ground arith
read_assignments-words ((k, v) ∷ kvs) w ws h =
    rw (has_equals k v, read_assignments-words kvs w ws h)

abbrev HeadPlain : List Text → Type 0
HeadPlain [] = Unit
HeadPlain (w ∷ ws) = starts_with_dash w ≡ false

plain_not_unset : (w : Text) → starts_with_dash w ≡ false → text_eq w (codes "-u") ≡ false
plain_not_unset [] h = refl
plain_not_unset (c ∷ w) h = ground arith

read_env-plain : (ws : List Text) → HeadPlain ws → read_env ws ≡ some (read_assignments ws)
unfolding read_env
read_env-plain [] h = refl
read_env-plain (w ∷ []) h = rw h
read_env-plain (w ∷ k ∷ ws) h = rw (plain_not_unset w h, h)

read_env-unset :
    (k : Text) (ws : List Text) → read_env (codes "-u" ∷ k ∷ ws) ≡ add_unset k (read_env ws)
unfolding read_env
read_env-unset k ws = refl

env_words-assigns :
    (kvs : List (Text × Text)) (rest : Env)
    → env_words (assigns kvs ++ rest) ≡ assignment_words kvs ++ env_words rest
env_words-assigns [] rest = refl
env_words-assigns ((k, v) ∷ kvs) rest = rw (env_words-assigns kvs rest)

module _ (kvs : List (Text × Text)) (rest : Env) (args : List Text) (w : Text)
    (ws : List Text) where
  read_env-items :
      (ks : List Text)
      → env_words rest ++ args ≡ w ∷ ws
      → has_char b'=' w ≡ false
      → HeadPlain (assignment_words kvs ++ (w ∷ ws))
      → read_env (env_words (unsets ks ++ (assigns kvs ++ rest)) ++ args)
        ≡ some (record { unset = ks; assigned = assignment_words kvs; command = w ∷ ws })
  read_env-items [] e h p = rw (
    env_words-assigns kvs rest,
    append_assoc,
    e,
    read_env-plain (assignment_words kvs ++ (w ∷ ws)) p,
    read_assignments-words kvs w ws h,
  )
  read_env-items (k ∷ ks) e h p = rw (read_env-unset k, read_env-items ks e h p)

abbrev words_of : List Token → Option (List Text)
words_of [] = some []
words_of (word w ∷ ts) = elim (words_of ts) [ none ↦ none | some ws ↦ some (w ∷ ws) ]
words_of (and_and ∷ ts) = none

abbrev read_words : Option (List Text) → Option EnvCall
read_words none = none
read_words (some ws) = read_env ws

abbrev call_of : Option (List Token) → Option EnvCall
call_of (some (word w ∷ ts)) = if text_eq w (codes "env") then read_words (words_of ts) else none
call_of _ = none

-- what a command line that begins with `env` has it do
unfoldable pub env_call : Text → Option EnvCall
env_call line = call_of (read_tokens line)

words_of-words : (ws : List Text) → words_of (map word ws) ≡ some ws
words_of-words [] = refl
words_of-words (w ∷ ws) = rw (words_of-words ws)

env_call-remote_command :
    (args : List Text) (e : Env)
    → e ≢ []
    → env_call (remote_command args none e) ≡ read_env (env_words e ++ args)
unfolding env_call
env_call-remote_command args [] h = absurd (h refl)
env_call-remote_command args (i ∷ is) h =
    rw (read-remote_command args none (i ∷ is), words_of-words (env_words (i ∷ is) ++ args))

-- In a remote command with no directory, whose mapping is not empty and has every removal before the
-- assignments, `env` removes and sets what the mapping says and runs the arguments, if the first of
-- them looks neither like an assignment nor like an option, and no name that is set begins as an option
-- does.
pub env_ordered :
    (ks : List Text) (kvs : List (Text × Text)) (a : Text) (args : List Text)
    → unsets ks ++ (assigns kvs ++ []) ≢ []
    → has_char b'=' a ≡ false
    → starts_with_dash a ≡ false
    → All IsPlain kvs
    → env_call (remote_command (a ∷ args) none (unsets ks ++ (assigns kvs ++ [])))
      ≡ some (record { unset = ks; assigned = assignment_words kvs; command = a ∷ args })
env_ordered ks [] a args n h d p =
    env_call-remote_command (a ∷ args) _ n ∙ read_env-items [] [] (a ∷ args) a args ks refl h d
env_ordered ks (kv ∷ kvs) a args n h d p =
    env_call-remote_command (a ∷ args) _ n
    ∙ read_env-items (kv ∷ kvs) [] (a ∷ args) a args ks refl h p.0

not_empty : (ks : List Text) (kv : Text × Option Text) (rest : Env) → unsets ks ++ (kv ∷ rest) ≢ []
not_empty [] kv rest e = cc
not_empty (k ∷ ks) kv rest e = cc

-- In a remote command with no directory, whose mapping has removals, or none, then assignments, and
-- then a removal, `env` takes the `-u` of this for the command and the rest for its arguments, if the
-- name of the first assignment does not begin as an option does: what the caller asked for does not
-- run, and the variable is not removed.
pub env_misordered :
    (ks : List Text) (kv : Text × Text) (kvs : List (Text × Text)) (u : Text) (rest : Env)
    (args : List Text)
    → IsPlain kv
    → env_call (remote_command args none (unsets ks ++ (assigns (kv ∷ kvs) ++ ((u, none) ∷ rest))))
      ≡ some (record {
        unset = ks;
        assigned = assignment_words (kv ∷ kvs);
        command = codes "-u" ∷ u ∷ (env_words rest ++ args);
      })
env_misordered ks kv kvs u rest args p =
    env_call-remote_command args _
      (not_empty ks (kv.0, some kv.1) (assigns kvs ++ ((u, none) ∷ rest)))
    ∙ read_env-items (kv ∷ kvs) ((u, none) ∷ rest) args (codes "-u") (u ∷ (env_words rest ++ args))
        ks refl refl p
