-- ===== src/Transfer/Publish.antt =====
-- `publish_local_transfer` (thunder_sandbox/asynchronous/_transfer.py) on the local file system.
pub mod Outcome
use thunder_sandbox.Prelude.{
  ℕ, Bool, true, false, ◌&&◌, ◌||◌, not, Option, none, some, List, [], ◌∷◌, ◌++◌, Text, text_eq,
  if◌then◌else◌,
}
use thunder_sandbox.Common.Errors.{
  Error, ErrorKind, os_error, thunder_error, plain, Result, ok, err, raise,
}

-- the files below a folder, by their relative paths, the first entry of a path counting
abbrev pub Files : Type 0
Files = List (Text × ℕ)

pub data Node : Type 0 where
  missing : Node
  file : ℕ → Node
  folder : Files → Node
  link_to_nothing link_to_file : Node
  link_to_folder : Files → Node

-- `is_dir` and `exists` follow links
abbrev pub is_dir : Node → Bool
is_dir (folder fs) = true
is_dir (link_to_folder fs) = true
is_dir _ = false

abbrev pub is_symlink : Node → Bool
is_symlink link_to_nothing = true
is_symlink link_to_file = true
is_symlink (link_to_folder fs) = true
is_symlink _ = false

abbrev pub exists : Node → Bool
exists missing = false
exists link_to_nothing = false
exists _ = true

abbrev pub files_of : Node → Files
files_of (folder fs) = fs
files_of (link_to_folder fs) = fs
files_of _ = []

-- which calls of the operating system fail
pub record Faults : Type 0 where
  pub move_away : Bool
  pub publish : Bool
  pub restore : Bool
  pub remove_backup : Bool
  pub copy_target : Bool
  pub copy_stage : Bool
  pub remove_combined : Bool

-- the paths that a publication touches; `backup` and `combined` have names that are not in use
pub record Disk : Type 0 where
  pub stage : Node
  pub target : Node
  pub backup : Node
  pub combined : Node

-- the source of a replacement, and what it leaves there
pub data Source : Type 0 where
  from_stage from_combined : Source

abbrev pub source_node : Source → Disk → Node
source_node from_stage d = d.stage
source_node from_combined d = d.combined

-- `os.replace(source, target)`
abbrev pub move_to_target : Source → Disk → Disk
move_to_target from_stage d = record d { target = d.stage; stage = missing }
move_to_target from_combined d = record d { target = d.combined; combined = missing }

abbrev pub put_back : Faults → Disk → Result (Unit {0}) × Disk
put_back f d =
    if f.restore
    then (err os_error, d)
    else (err os_error, record d { target = d.backup; backup = missing })

abbrev pub drop_backup : Faults → Disk → Result (Unit {0}) × Disk
drop_backup f d =
    if f.remove_backup then (err os_error, d) else (ok tt, record d { backup = missing })

abbrev pub swap : Faults → Source → Disk → Result (Unit {0}) × Disk
swap f s d = if f.publish then put_back f d else drop_backup f (move_to_target s d)

-- `_replace_local_transfer`
unfoldable pub replace_local_transfer : Faults → Source → Disk → Result (Unit {0}) × Disk
replace_local_transfer f s d =
    if is_dir d.target && not (is_symlink d.target)
    then (if f.move_away
        then (err os_error, d)
        else swap f s (record d { backup = d.target; target = missing }))
    else (if f.publish then (err os_error, d) else (ok tt, move_to_target s d))

-- `remove_local_transfer_path(combined)` in the `finally` clause
abbrev pub remove_combined : Faults → Result (Unit {0}) × Disk → Result (Unit {0}) × Disk
remove_combined f (r, d) =
    if exists d.combined || is_symlink d.combined
    then (if f.remove_combined then (err os_error, d) else (r, record d { combined = missing }))
    else (r, d)

-- the copies into the combined folder, and its publication
abbrev pub overlay : Faults → Disk → Result (Unit {0}) × Disk
overlay f d =
    if f.copy_stage
    then (err os_error, d)
    else replace_local_transfer f from_combined
        (record d { combined = folder (files_of d.stage ++ files_of d.combined) })

-- `copytree(target, combined)`, or `combined.mkdir()` where the target is not there; a copy that
-- fails may leave a folder
abbrev pub combine : Faults → Disk → Result (Unit {0}) × Disk
combine f d =
    if exists d.target || is_symlink d.target
    then (if not (is_dir d.target)
        then (raise ErrorKind.sandbox_failed, d)
        else if f.copy_target
        then (err os_error, record d { combined = folder [] })
        else overlay f (record d { combined = folder (files_of d.target) }))
    else (if f.copy_target
        then (err os_error, d)
        else overlay f (record d { combined = folder [] }))

-- `publish_local_contents`
unfoldable pub publish_local_contents : Faults → Disk → Result (Unit {0}) × Disk
unfolding replace_local_transfer
publish_local_contents f d =
    if not (is_dir d.stage)
    then (raise ErrorKind.sandbox_failed, d)
    else remove_combined f (combine f d)

-- `publish_local_transfer`
unfoldable pub publish_local_transfer : Faults → Disk → Result (Unit {0}) × Disk
publish_local_transfer f d =
    if not (exists d.stage) && not (is_symlink d.stage)
    then (raise ErrorKind.sandbox_failed, d)
    else (if is_dir d.stage && is_dir d.target
        then publish_local_contents f d
        else replace_local_transfer f from_stage d)
