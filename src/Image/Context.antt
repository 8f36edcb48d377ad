-- ===== src/Image/Context.antt =====
-- `_normalized_relative_path` and `_context_files` (thunder_sandbox/image.py). The tree does not change
-- while it is walked.
pub mod Safe
pub mod Met
pub mod Sound
pub mod Wanted
pub mod Level
pub mod Complete
use thunder_sandbox.Common.Sort.{sorted}
use thunder_sandbox.Prelude.{
  Bool, true, false, ◌&&◌, ◌||◌, not, Option, none, some, List, [], ◌∷◌, ◌++◌, Text, codes, text_eq,
  has_char, is_empty, any, ◌==◌, ltb, if◌then◌else◌,
}
use thunder_sandbox.Common.Errors.{ErrorKind, Result, ok, err, raise, ◌>>=◌}
use thunder_sandbox.Image.Ignore.{DockerIgnore, excludes, could_include_descendant}

-- What a folder holds, in the order of the names. `os.walk` takes a link to a folder for a folder, and
-- passes over the members of a folder that it cannot list.
mutual
  pub data Node : Type 0 where
    regular special link link_to_folder unreadable : Node
    folder : Entries → Node

  pub data Entries : Type 0 where
    end : Entries
    entry : Text → Node → Entries → Entries

-- a name in the archive, and the path of the file that it stands for
abbrev pub ContextFile : Type 0
ContextFile = Text × Text

-- the names that were met, and the files
pub record Walk : Type 0 where
  pub seen : List Text
  pub files : List ContextFile

abbrev pub is_folder : Node → Bool
is_folder Node.link_to_folder = true
is_folder Node.unreadable = true
is_folder (Node.folder es) = true
is_folder _ = false

-- `parent / name`; the parent of the first names is empty
abbrev pub child : Text → Text → Text
child [] name = name
child parent name = parent ++ (47 ∷ name)

-- the parts of `text.split("/")`: the first, and the rest
abbrev pub first_part : Text → List Text → List Text
first_part c [] = c ∷ []
first_part c (p ∷ ps) = (c ++ p) ∷ ps

abbrev pub split_slashes : Text → List Text
split_slashes [] = [] ∷ []
split_slashes (c ∷ cs) =
    let rest = split_slashes cs in if c == 47 then [] ∷ rest else first_part (c ∷ []) rest

abbrev pub is_unsafe_part : Text → Bool
is_unsafe_part p = is_empty p || (text_eq p (codes ".") || text_eq p (codes ".."))

-- The empty text and one that begins with a slash have an empty part.
abbrev pub is_unsafe : Text → Bool
is_unsafe t = any is_unsafe_part (split_slashes t)

abbrev pub is_kept : Text → Bool
is_kept t = text_eq t (codes "Dockerfile") || text_eq t (codes ".dockerignore")

abbrev pub is_seen : Text → List Text → Bool
is_seen t ts = any (λ s. text_eq s t) ts

abbrev pub invalid {ℓ} : {A : Type ℓ} → Result A
invalid = raise ErrorKind.invalid_request

-- what `inspect` finds: whether the path is to be taken, its name in the archive, and the names met
pub record Inspected : Type 0 where
  pub taken : Bool
  pub name : Text
  pub seen : List Text

abbrev pub is_link : Node → Bool
is_link Node.link = true
is_link Node.link_to_folder = true
is_link _ = false

abbrev pub is_regular : Node → Bool
is_regular Node.regular = true
is_regular _ = false

-- the name that paths get in the archive, the folder of the artifacts, and the `.dockerignore`
module _ (nfc : Text → Text) (is_artifacts : Text → Bool) (ignore : DockerIgnore) where
  unfoldable pub normalized_relative_path : Text → Result Text
  normalized_relative_path path = if is_unsafe (nfc path) then invalid else ok (nfc path)

  abbrev pub meet : Text → Node → List Text → Result Inspected
  meet name node seen =
      if not (is_kept name) && excludes ignore name
      then ok (record { taken = false; name = name; seen = seen })
      else if is_seen name seen
      then invalid
      else if is_link node
      then invalid
      else ok (record { taken = true; name = name; seen = name ∷ seen })

  -- `inspect`
  unfoldable pub inspect : Text → Node → List Text → Result Inspected
  inspect path node seen = normalized_relative_path path >>= λ name. meet name node seen

  -- the folders that are walked: those that are taken, and those that a negation may include from
  abbrev pub is_walked : Inspected → Bool
  is_walked i = i.taken || could_include_descendant ignore i.name

  -- the loop over `directory_names`, which gives the folders to walk
  unfoldable pub folder_names : Text → Entries → Walk → Result (List Text × Walk)
  folder_names parent Entries.end w = ok ([], w)
  folder_names parent (Entries.entry n node es) w =
      if not (is_folder node) || is_artifacts (child parent n)
      then folder_names parent es w
      else inspect (child parent n) node w.seen >>= λ i.
          folder_names parent es (record w { seen = i.seen }) >>= λ r.
          ok (if is_walked i then n ∷ r.0 else r.0, r.1)

  abbrev pub add_file : Text → Node → Inspected → Walk → Result Walk
  add_file path node i w =
      if not i.taken
      then ok (record w { seen = i.seen })
      else if is_regular node
      then ok (record { seen = i.seen; files = (i.name, path) ∷ w.files })
      else invalid

  -- the loop over `file_names`
  unfoldable pub take_files : Text → Entries → Walk → Result Walk
  take_files parent Entries.end w = ok w
  take_files parent (Entries.entry n node es) w =
      if is_folder node
      then take_files parent es w
      else inspect (child parent n) node w.seen >>= λ i.
          add_file (child parent n) node i w >>= take_files parent es

  -- one folder of `os.walk`
  abbrev pub visit : Text → Entries → Walk → Result (List Text × Walk)
  visit parent es w =
      folder_names parent es w >>= λ r. take_files parent es r.1 >>= λ v. ok (r.0, v)

  -- the folders to walk, each with those below it
  unfoldable pub descend : Text → Entries → List Text → Walk → Result Walk
  descend parent Entries.end walked w = ok w
  descend parent (Entries.entry n (Node.folder sub) es) walked w =
      (if is_seen n walked
        then (visit (child parent n) sub w >>= λ r. descend (child parent n) sub r.0 r.1)
        else ok w)
      >>= descend parent es walked
  descend parent (Entries.entry n node es) walked w = descend parent es walked w

  -- `_context_files`
  unfoldable pub context_files : Entries → Result (List ContextFile)
  context_files root = visit [] root (record { seen = []; files = [] }) >>= λ r.
      descend [] root r.0 r.1 >>= λ w. ok (sorted w.files)
