-- ===== src/Shell/Command.antt =====
-- `_remote_command` (thunder_sandbox/asynchronous/sandbox.py).
use thunder_sandbox.Prelude.{Option, none, some, List, [], ◌∷◌, ◌++◌, Text, codes, map}
use thunder_sandbox.Shell.Quote.{quote, join_words}
use thunder_sandbox.Jobs.Spec.{Env}

unfoldable pub workdir_parts : Option Text → List Text
workdir_parts none = []
workdir_parts (some d) = codes "cd" ∷ quote d ∷ codes "&&" ∷ []

-- the loop over `env.items()`
unfoldable pub env_item_parts : Env → List Text
env_item_parts [] = []
env_item_parts ((k, none) ∷ rest) = codes "-u" ∷ quote k ∷ env_item_parts rest
env_item_parts ((k, some v) ∷ rest) = (quote k ++ (b'=' ∷ quote v)) ∷ env_item_parts rest

unfoldable pub env_parts : Env → List Text
env_parts [] = []
env_parts (i ∷ is) = codes "env" ∷ env_item_parts (i ∷ is)

unfoldable pub remote_command : List Text → Option Text → Env → Text
remote_command args workdir env =
    join_words (workdir_parts workdir ++ (env_parts env ++ map quote args))
