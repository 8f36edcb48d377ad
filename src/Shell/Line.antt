-- ===== src/Shell/Line.antt =====
-- What the shell reads in a remote command is what the caller passed.
use thunder_sandbox.Prelude.{◌≡◌, Option, none, some, List, [], ◌∷◌, ◌++◌, Text, codes, map}
use thunder_sandbox.Shell.Quote.{quote}
use thunder_sandbox.Shell.Reader.{Token, word, and_and, read_tokens}
use thunder_sandbox.Shell.Reading.{
  Reads, done, word_piece, and_piece, read-join_words, quote-IsWord, cd-IsWord, env-IsWord,
  unset-IsWord, assignment-IsWord,
}
use thunder_sandbox.Shell.Command.{workdir_parts, env_item_parts, env_parts, remote_command}
use thunder_sandbox.Jobs.Spec.{Env}

-- the words of `env` for each item of a mapping
abbrev pub env_words : Env → List Text
env_words [] = []
env_words ((k, none) ∷ rest) = codes "-u" ∷ k ∷ env_words rest
env_words ((k, some v) ∷ rest) = (k ++ (b'=' ∷ v)) ∷ env_words rest

-- `cd` and `env` are there only when they are asked for
abbrev pub line_tokens : List Text → Option Text → Env → List Token
line_tokens args none [] = map word args
line_tokens args none (i ∷ is) = word (codes "env") ∷ map word (env_words (i ∷ is) ++ args)
line_tokens args (some d) [] = word (codes "cd") ∷ word d ∷ and_and ∷ map word args
line_tokens args (some d) (i ∷ is) =
    word (codes "cd")
    ∷ word d
    ∷ and_and
    ∷ word (codes "env")
    ∷ map word (env_words (i ∷ is) ++ args)

args-Reads : (args : List Text) → Reads (map quote args) (map word args)
args-Reads [] = done
args-Reads (a ∷ rest) = word_piece (quote-IsWord a) (args-Reads rest)

items-Reads :
    (env : Env) (args : List Text)
    → Reads (env_item_parts env ++ map quote args) (map word (env_words env ++ args))
unfolding env_item_parts
items-Reads [] args = args-Reads args
items-Reads ((k, none) ∷ rest) args =
    word_piece unset-IsWord (word_piece (quote-IsWord k) (items-Reads rest args))
items-Reads ((k, some v) ∷ rest) args = word_piece (assignment-IsWord k v) (items-Reads rest args)

line-Reads :
    (args : List Text) (workdir : Option Text) (env : Env)
    → Reads
        (workdir_parts workdir ++ (env_parts env ++ map quote args))
        (line_tokens args workdir env)
unfolding workdir_parts env_parts
line-Reads args none [] = args-Reads args
line-Reads args none (i ∷ is) = word_piece env-IsWord (items-Reads (i ∷ is) args)
line-Reads args (some d) [] =
    word_piece cd-IsWord (word_piece (quote-IsWord d) (and_piece (args-Reads args)))
line-Reads args (some d) (i ∷ is) =
    word_piece cd-IsWord
      (word_piece (quote-IsWord d) (and_piece (word_piece env-IsWord (items-Reads (i ∷ is) args))))

-- Whatever characters the arguments, the directory and the environment hold, the shell reads the
-- line as exactly these words: `cd DIR &&` if a directory is given, `env` with one option or
-- assignment for each item if the environment is not empty, and then the arguments.
pub read-remote_command :
    (args : List Text) (workdir : Option Text) (env : Env)
    → read_tokens (remote_command args workdir env) ≡ some (line_tokens args workdir env)
unfolding read_tokens remote_command
read-remote_command args workdir env = read-join_words (line-Reads args workdir env)
