-- ===== src/Config/Paths.antt =====
-- `ThunderPaths` (thunder_sandbox/_common/config.py), with POSIX paths.
pub mod Apart
use thunder_sandbox.Prelude.{
  ◌+◌, ◌==◌, ◌||◌, not, Option, none, some, [], ◌∷◌, ◌++◌, Text, codes, text_eq, has_char, is_empty,
  take, if◌then◌else◌,
}
use thunder_sandbox.Common.Errors.{Result, ok, err, value_error, ◌>>=◌, ◌>>◌}
use thunder_sandbox.Jobs.Paths.{PosixPath, ◌/ₚ◌}
use thunder_sandbox.Config.{validate_sandbox_name}

-- MAIN_WORKSPACE_ID
abbrev pub main_workspace_id : Text
main_workspace_id = codes "main"

-- `root or configured_root or Path.home() / ".thunder"`, with the path that a text stands for
abbrev pub chosen_root : (Text → PosixPath) → Option PosixPath → Option Text → PosixPath → PosixPath
chosen_root to_path (some root) configured home = root
chosen_root to_path none none home = home /ₚ codes ".thunder"
chosen_root to_path none (some c) home = if is_empty c then home /ₚ codes ".thunder" else to_path c

pub record ThunderPaths : Type 0 where
  pub root : PosixPath
  pub credentials : PosixPath
  pub sandbox_keys : PosixPath
  pub image_build_contexts : PosixPath

-- `ThunderPaths.__init__`, with what expands a leading `~`
unfoldable pub thunder_paths :
    (PosixPath → PosixPath)
    → (Text → PosixPath)
    → Option PosixPath
    → Option Text
    → PosixPath
    → ThunderPaths
thunder_paths expanduser to_path root configured home =
    let r = expanduser (chosen_root to_path root configured home) in
    record {
      root = r;
      credentials = r /ₚ codes "cli_config.json";
      sandbox_keys = r /ₚ codes "sandbox_keys";
      image_build_contexts = r /ₚ codes "image_build_contexts";
    }

unfoldable pub sandbox_private_key : ThunderPaths → Text → Result PosixPath
sandbox_private_key p name = do validate_sandbox_name name; ok (p.sandbox_keys /ₚ name)

-- the texts on both sides of the last dot
abbrev pub split_last : Text → Option (Text × Text)
split_last [] = none
split_last (c ∷ cs) = elim (split_last cs) [
  | some (a, b) ↦ some (c ∷ a, b)
  | none ↦ if c == 46 then some ([], cs) else none
]

-- the name without its suffix, if it has one
abbrev pub stem : Text → Text
stem t = elim (split_last t) [ some (a, b) ↦ if is_empty a || is_empty b then t else a | none ↦ t ]

-- the private key's path `with_suffix(".pub")`
unfoldable pub sandbox_public_key : ThunderPaths → Text → Result PosixPath
sandbox_public_key p name = do
  validate_sandbox_name name
  ok (p.sandbox_keys /ₚ (stem name ++ codes ".pub"))

abbrev pub ssh_key : ThunderPaths → PosixPath
ssh_key p = p.sandbox_keys /ₚ codes "id_ed25519"

abbrev pub ssh_certificate : ThunderPaths → PosixPath
ssh_certificate p = p.sandbox_keys /ₚ codes "id_ed25519-cert.pub"

abbrev pub ssh_certificate_meta : ThunderPaths → PosixPath
ssh_certificate_meta p = p.sandbox_keys /ₚ codes "id_ed25519-cert.json"

-- the hexadecimal SHA-256 of a text; a text with a surrogate has none
module _ (sha256 : Text → Option Text) where
  -- `_workspace_key`
  abbrev pub workspace_key : Text → Result Text
  workspace_key workspace_id = elim (sha256 workspace_id) [
    | none ↦ err value_error
    | some h ↦ ok (take 16 h)
  ]

  -- the file of the main workspace, or the one that is named after the key
  abbrev pub workspace_file : PosixPath → Text → ThunderPaths → Text → Result PosixPath
  workspace_file main suffix p workspace_id =
      let named = workspace_key workspace_id >>= λ k.
      ok (p.sandbox_keys /ₚ (codes "id_ed25519-" ++ (k ++ suffix))) in
      if text_eq workspace_id main_workspace_id then ok main else named

  unfoldable pub workspace_ssh_certificate : ThunderPaths → Text → Result PosixPath
  workspace_ssh_certificate p = workspace_file (ssh_certificate p) (codes "-cert.pub") p

  unfoldable pub workspace_ssh_certificate_meta : ThunderPaths → Text → Result PosixPath
  workspace_ssh_certificate_meta p = workspace_file (ssh_certificate_meta p) (codes "-cert.json") p
