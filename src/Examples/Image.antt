-- ===== src/Examples/Image.antt =====
-- Build contexts, of thunder_sandbox/image.py.
use thunder_sandbox.Prelude.{
  ℕ, ◌≡◌, refl, Bool, true, some, false, List, [], ◌∷◌, Text, codes, text_eq,
}
use thunder_sandbox.Common.Errors.{ok, ◌>>=◌}
use thunder_sandbox.Image.Ignore.{
  DockerIgnore, expression_of, pattern_expression, excludes_from, excludes,
  could_include_descendant,
}
use thunder_sandbox.Image.Context.{
  Node, Entries, ContextFile, normalized_relative_path, inspect, folder_names, take_files, descend,
  context_files,
}
use thunder_sandbox.Image.Context.Sound.{IsContext, context_files-IsContext}
use thunder_sandbox.Image.Archive.{
  Bytes, Archive, Disk, contents, add_files, describe, create_build_context,
}
use thunder_sandbox.Image.Archive.Built.{Built, create_build_context-Built}

-- `*.log`, as the expression that it is compiled to
log_pattern :
    pattern_expression (λ c. 92 ∷ c ∷ []) (codes "*.log") ≡ codes "[^/]*\\.\\l\\o\\g(?:/.*)?"
unfolding pattern_expression expression_of
log_pattern = refl

-- an empty class is passed to `re` as it is
empty_class : pattern_expression (λ c. 92 ∷ c ∷ []) (codes "[]") ≡ codes "[](?:/.*)?"
unfolding pattern_expression expression_of
empty_class = refl

abbrev ignores_b : DockerIgnore
ignores_b = record {
  rules = record { matches = λ t. text_eq t (codes "s/b"); negated = false } ∷ [];
  negated_patterns = [];
}

abbrev same : Text → Text
same t = t

abbrev nowhere : Text → Bool
nowhere t = false

abbrev tree : Entries
tree = Entries.entry (codes "Dockerfile") Node.regular (
    Entries.entry (codes "s")
      (Node.folder (
        Entries.entry (codes "a") Node.regular
          (Entries.entry (codes "b") Node.regular Entries.end)))
      Entries.end)

abbrev files : List ContextFile
files = (codes "Dockerfile", codes "Dockerfile") ∷ (codes "s/a", codes "s/a") ∷ []

tree-files : context_files same nowhere ignores_b tree ≡ ok files
unfolding context_files descend take_files folder_names inspect normalized_relative_path excludes
    excludes_from could_include_descendant ◌>>=◌
tree-files = refl

context_files-IsContext_example : IsContext same nowhere ignores_b tree files
context_files-IsContext_example =
    context_files-IsContext same nowhere ignores_b tree files tree-files

abbrev good_disk : Disk
good_disk = record {
  made = true;
  is_dir = true;
  set_up = true;
  creates = true;
  open_path = λ t. contents (codes "x");
  reads = true;
  unlinks = true;
}

abbrev no_size : Archive → ℕ
no_size a = 0

abbrev no_digest : Archive → Text
no_digest a = codes "d"

abbrev no_hash : Bytes → Text
no_hash b = codes "h"

context_is_made :
    (create_build_context no_size no_digest no_hash good_disk (ok files)).left
    ≡ some ((codes "Dockerfile", codes "x") ∷ (codes "s/a", codes "x") ∷ [])
unfolding create_build_context describe add_files ◌>>=◌
context_is_made = refl

create_build_context-Built_example :
    Built no_size no_digest no_hash good_disk
      (ok files)
      (create_build_context no_size no_digest no_hash good_disk (ok files))
create_build_context-Built_example =
    create_build_context-Built no_size no_digest no_hash good_disk (ok files)
