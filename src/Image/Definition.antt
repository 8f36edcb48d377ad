-- ===== src/Image/Definition.antt =====
-- `Image` with `from_registry`, `from_dockerfile` and `_validate_display_name`
-- (thunder_sandbox/image.py).
pub mod Registry
use thunder_sandbox.Prelude.{
  ℕ, ◌+◌, Bool, true, false, ◌&&◌, ◌||◌, not, Option, none, some, List, [], ◌∷◌, Text, text_eq,
  has_char, any, is_empty, leb, ltb, if◌then◌else◌,
}
use thunder_sandbox.Common.Errors.{
  Error, ErrorKind, thunder_error, plain, Result, ok, err, raise, guard, ◌>>=◌, ◌>>◌,
}
use thunder_sandbox.Common.Whitespace.{is_space, strip}
use thunder_sandbox.Create.Options.{Argument, proper, improper}

pub data Source : Type 0 where
  registry dockerfile : Source

pub record Image : Type 0 where
  pub source : Source
  pub registry_url : Option Text
  pub registry_username : Option Text
  pub registry_password : Option Text
  pub context_directory : Option Text
  pub display_name : Option Text

abbrev pub invalid_request : Error
invalid_request = thunder_error (plain ErrorKind.invalid_request)

-- the bytes of a character in UTF-8; a surrogate has none
abbrev pub utf8_char : ℕ → Option ℕ
utf8_char c =
    if ltb c 0x80
    then some 1
    else if ltb c 0x800
    then some 2
    else if leb 0xD800 c && leb c 0xDFFF
    then none
    else if ltb c 0x10000
    then some 3
    else some 4

abbrev pub sum_or_none : Option ℕ → Option ℕ → Option ℕ
sum_or_none none n = none
sum_or_none (some m) none = none
sum_or_none (some m) (some n) = some (m + n)

-- `len(text.encode("utf-8"))`
abbrev pub utf8_size : Text → Option ℕ
utf8_size [] = some 0
utf8_size (c ∷ cs) = sum_or_none (utf8_char c) (utf8_size cs)

-- a text that cannot be encoded raises `UnicodeEncodeError`
abbrev pub size_at_most : ℕ → Text → Result (Unit {0})
size_at_most k t = elim (utf8_size t) [
  | none ↦ err Error.value_error
  | some n ↦ guard (leb n k) invalid_request
]

abbrev pub is_single_line : Text → Bool
is_single_line t = not (has_char 0 t) && (not (has_char 13 t) && not (has_char 10 t))

-- `_validate_display_name`
unfoldable pub validate_display_name : Option (Argument Text) → Result (Option Text)
validate_display_name none = ok none
validate_display_name (some improper) = err invalid_request
validate_display_name (some (proper t)) = do
  guard (text_eq t (strip t)) invalid_request
  size_at_most 128 t
  guard (is_single_line t) invalid_request
  ok (some t)

-- the checks of the credentials
abbrev pub validate_credentials : Option Text → Option Text → Result (Unit {0})
validate_credentials none none = ok tt
validate_credentials (some u) (some p) =
    guard (not (is_empty u) && not (is_empty p)) invalid_request
validate_credentials _ _ = err invalid_request

-- `from_registry`
unfoldable pub from_registry :
    Argument Text → Option Text → Option Text → Option (Argument Text) → Result Image
from_registry improper u p d = err invalid_request
from_registry (proper url) u p d = do
  guard (not (is_empty (strip url))) invalid_request
  guard (not (any is_space url)) invalid_request
  validate_credentials u p
  name ← validate_display_name d
  ok (record {
    source = registry;
    registry_url = some (strip url);
    registry_username = u;
    registry_password = p;
    context_directory = none;
    display_name = name;
  })

-- what the file system says of a path: its resolved form, whether it is a folder, and whether it has a
-- file `Dockerfile`
pub record Directory : Type 0 where
  pub resolved : Text
  pub is_dir : Bool
  pub has_dockerfile : Bool

-- `from_dockerfile`
unfoldable pub from_dockerfile : Argument Directory → Option (Argument Text) → Result Image
from_dockerfile improper d = err invalid_request
from_dockerfile (proper path) d = do
  guard path.is_dir invalid_request
  guard path.has_dockerfile invalid_request
  name ← validate_display_name d
  ok (record {
    source = dockerfile;
    registry_url = none;
    registry_username = none;
    registry_password = none;
    context_directory = some path.resolved;
    display_name = name;
  })
