-- ===== src/Image/Archive.antt =====
-- `_create_canonical_build_context` and `_recipe_hash` (thunder_sandbox/image.py). An archive is the
-- list of its members, each a name with contents: all else in an entry is fixed.
pub mod Built
use thunder_sandbox.Prelude.{
  ℕ, ◌*◌, Bool, true, false, ◌&&◌, not, Option, none, some, List, [], ◌∷◌, ◌++◌, Text, codes,
  text_eq, any, leb, if◌then◌else◌,
}
use thunder_sandbox.Common.Errors.{
  Error, ErrorKind, thunder_error, plain, Result, ok, err, raise, guard, ◌>>=◌, ◌>>◌,
}
use thunder_sandbox.Image.Context.{ContextFile, is_seen}

abbrev pub Bytes : Type 0
Bytes = List ℕ

abbrev pub Archive : Type 0
Archive = List (Text × Bytes)

-- MAX_BUILD_CONTEXT_BYTES
abbrev pub max_build_context_bytes : ℕ
max_build_context_bytes = 5 * (1024 * (1024 * 1024))

-- `_BUILD_OPTIONS` and `_RECIPE_DOMAIN`
abbrev pub build_options : Bytes
build_options = codes "thunder-sandbox-build-options-v1" ++ (0 ∷ codes "Dockerfile")

abbrev pub recipe_domain : Bytes
recipe_domain = codes "thunder-sandbox-dockerfile-recipe-v1" ++ (0 ∷ [])

-- what a path is when it is opened; `broken` is a file whose contents cannot be read to their end
pub data Opened : Type 0 where
  unreadable irregular broken : Opened
  contents : Bytes → Opened

-- What the file system answers: whether the folder of the artifacts can be made, is one, and can be set
-- up, whether the archive can be made, what a path is, whether the archive can be read again, and
-- whether it can be removed.
pub record Disk : Type 0 where
  pub made : Bool
  pub is_dir : Bool
  pub set_up : Bool
  pub creates : Bool
  pub open_path : Text → Opened
  pub reads : Bool
  pub unlinks : Bool

pub record BuildContext : Type 0 where
  pub archive_bytes : ℕ
  pub context_hash : Text
  pub dockerfile_hash : Text
  pub build_options_hash : Text
  pub recipe_hash : Text

-- how a call ends, and the archive that is left on the disk
pub record Outcome : Type 0 where
  pub result : Result BuildContext
  pub left : Option Archive

abbrev pub invalid_request : Error
invalid_request = thunder_error (plain ErrorKind.invalid_request)

-- the folder of the artifacts
abbrev pub prepare : Disk → Result (Unit {0})
prepare d = do
  guard d.made invalid_request
  guard d.is_dir invalid_request
  guard d.set_up invalid_request

abbrev pub read_file : Opened → Result Bytes
read_file unreadable = err invalid_request
read_file irregular = err invalid_request
read_file broken = err Error.os_error
read_file (contents b) = ok b

-- the loop that adds the files
unfoldable pub add_files : (Text → Opened) → List ContextFile → Result Archive
add_files open_path [] = ok []
add_files open_path (f ∷ fs) = do
  b ← read_file (open_path f.1)
  rest ← add_files open_path fs
  ok ((f.0, b) ∷ rest)

-- `extractfile`: the member of the name that comes last
abbrev pub extract : Text → Archive → Option Bytes
extract name [] = none
extract name ((n, b) ∷ ms) = elim (extract name ms) [
  | some c ↦ some c
  | none ↦ if text_eq n name then some b else none
]

abbrev pub is_dockerfile : ContextFile → Bool
is_dockerfile f = text_eq f.0 (codes "Dockerfile")

-- The size of an archive's file and the digests, of an archive and of bytes, are parameters.
module _ (size : Archive → ℕ) (digest_file : Archive → Text) (digest : Bytes → Text) where
  -- `_recipe_hash`
  abbrev pub recipe_hash_of : Text → Text → Text → Text
  recipe_hash_of context_hash dockerfile_hash build_options_hash =
      digest
        (recipe_domain ++ (context_hash ++ (0 ∷ (dockerfile_hash ++ (0 ∷ build_options_hash)))))

  abbrev pub described : Archive → Bytes → BuildContext
  described a dockerfile = record {
    archive_bytes = size a;
    context_hash = digest_file a;
    dockerfile_hash = digest dockerfile;
    build_options_hash = digest build_options;
    recipe_hash = recipe_hash_of (digest_file a) (digest dockerfile) (digest build_options);
  }

  abbrev pub extracted : Archive → Result Bytes
  extracted a = elim (extract (codes "Dockerfile") a) [ none ↦ err Error.key_error | some b ↦ ok b ]

  -- the second `try` block, once the archive is written
  unfoldable pub describe : Bool → Archive → Result BuildContext
  describe reads a = do
    guard reads Error.os_error
    guard (leb (size a) max_build_context_bytes) invalid_request
    b ← extracted a
    ok (described a b)

  -- `except Exception: archive_path.unlink(missing_ok=True); raise`
  abbrev pub or_remove : Bool → Archive → Result BuildContext → Outcome
  or_remove unlinks a (ok c) = record { result = ok c; left = some a }
  or_remove true a (err e) = record { result = err e; left = none }
  or_remove false a (err e) = record { result = err Error.os_error; left = some a }

  -- A file that is written in part is an archive with no members here.
  abbrev pub written : Disk → Result Archive → Outcome
  written d (err e) = or_remove d.unlinks [] (err e)
  written d (ok a) = or_remove d.unlinks a (describe d.reads a)

  abbrev pub fails : Error → Outcome
  fails e = record { result = err e; left = none }

  abbrev pub with_files : Disk → Result (List ContextFile) → Outcome
  with_files d (err e) = fails e
  with_files d (ok fs) =
      if not (any is_dockerfile fs)
      then fails invalid_request
      else if not d.creates
      then fails invalid_request
      else written d (add_files d.open_path fs)

  -- `_create_canonical_build_context`, with the files of the context
  unfoldable pub create_build_context : Disk → Result (List ContextFile) → Outcome
  create_build_context d files = elim (prepare d) [ err e ↦ fails e | ok u ↦ with_files d files ]
