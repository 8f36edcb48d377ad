-- ===== src/Transfer/Path.antt =====
-- `parse_transfer_path` (thunder_sandbox/asynchronous/_transfer.py), for a separator of one character.
pub mod Parts
pub mod Parsed
use thunder_sandbox.Prelude.{
  ℕ, Bool, true, false, ◌||◌, Option, none, some, [], ◌∷◌, ◌++◌, Text, codes, text_eq, has_char,
  is_empty, ◌==◌, if◌then◌else◌,
}
use thunder_sandbox.Common.Whitespace.{rstrip}

pub record ParsedTransferPath : Type 0 where
  pub path : Text
  pub contents_only : Bool
  pub name : Text

abbrev pub prepend : ℕ → Option Text → Option Text
prepend c none = none
prepend c (some t) = some (c ∷ t)

-- the text before the separator and a dot, if it ends with these
abbrev pub drop_dot : ℕ → Text → Option Text
drop_dot s [] = none
drop_dot s (c ∷ cs) =
    let rest = drop_dot s cs in if text_eq (c ∷ cs) (s ∷ 46 ∷ []) then some [] else prepend c rest

-- `text.endswith(k)`
abbrev pub ends_with_char : ℕ → Text → Bool
ends_with_char k [] = false
ends_with_char k (c ∷ cs) = let rest = ends_with_char k cs in if is_empty cs then c == k else rest

-- `text.rsplit(separator, 1)[-1]`
abbrev pub last_part : ℕ → Text → Text
last_part s [] = []
last_part s (c ∷ cs) = let rest = last_part s cs in if has_char s (c ∷ cs) then rest else c ∷ cs

-- the root's contents: the separator is the whole path, not a suffix
abbrev pub or_root : ℕ → Text → Text
or_root s p = if is_empty p || ends_with_char 58 p then p ++ (s ∷ []) else p

unfoldable pub parse_transfer_path : ℕ → Text → ParsedTransferPath
parse_transfer_path s path = elim (drop_dot s path) [
  | some p ↦ record { path = or_root s p; contents_only = true; name = codes "contents" }
  | none ↦ record { path = path; contents_only = false; name = last_part s (rstrip s path) }
]
