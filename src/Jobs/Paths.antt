-- ===== src/Jobs/Paths.antt =====
-- Job identifiers and the remote paths of one job (thunder_sandbox/asynchronous/_jobs.py).
pub mod Laws
use thunder_sandbox.Prelude.{
  ℕ, Bool, true, false, ◌&&◌, ◌||◌, not, List, [], ◌∷◌, ◌++◌, Text, codes, text_eq, length, all,
  leb, ◌==◌, is_empty, if◌then◌else◌,
}
use thunder_sandbox.Common.Errors.{Result, ok, value_error, ◌>>=◌, ◌>>◌, guard}

-- the class `[0-9a-f]`
abbrev is_hex : ℕ → Bool
is_hex c = (leb b'0' c && leb c b'9') || (leb b'a' c && leb c b'f')

-- `_JOB_ID.fullmatch`
unfoldable pub is_job_id : Text → Bool
is_job_id t = length t == 32 && all is_hex t

unfoldable pub validate_job_id : Text → Result Text
validate_job_id t = do guard (is_job_id t) value_error; ok t

-- `PurePosixPath`: its components behind the root
pub record PosixPath : Type 0 where
  pub absolute : Bool
  pub parts : List Text

abbrev starts_with_slash : Text → Bool
starts_with_slash [] = false
starts_with_slash (c ∷ cs) = c == b'/'

abbrev cons_head : ℕ → List Text → List Text
cons_head c [] = (c ∷ []) ∷ []
cons_head c (t ∷ ts) = (c ∷ t) ∷ ts

-- `text.split("/")`
unfoldable pub split_slash : Text → List Text
split_slash [] = [] ∷ []
split_slash (c ∷ cs) =
    let rest = split_slash cs in if c == b'/' then [] ∷ rest else cons_head c rest

-- empty components and `.` are dropped; `..` is kept
abbrev drop_dots : List Text → List Text
drop_dots [] = []
drop_dots (t ∷ ts) =
    let rest = drop_dots ts in if is_empty t || text_eq t (codes ".") then rest else t ∷ rest

-- `path / text`: an absolute text replaces the path
infixl 60 ◌/ₚ◌
unfoldable pub ◌/ₚ◌ : PosixPath → Text → PosixPath
p /ₚ t =
    if starts_with_slash t
    then record { absolute = true; parts = drop_dots (split_slash t) }
    else record { absolute = p.absolute; parts = p.parts ++ drop_dots (split_slash t) }

abbrev join_parts : List Text → Text
join_parts [] = []
join_parts (t ∷ ts) = b'/' ∷ (t ++ join_parts ts)

-- `str(path)` of an absolute path
unfoldable pub path_text : PosixPath → Text
path_text p = if is_empty (join_parts p.parts) then codes "/" else join_parts p.parts

abbrev pub job_root : PosixPath
job_root = record {
  absolute = true;
  parts = codes "var" ∷ codes "tmp" ∷ codes "thunder-sandbox" ∷ codes "jobs" ∷ [];
}

abbrev pub container_job_root : PosixPath
container_job_root = record {
  absolute = true;
  parts = codes "tmp" ∷ codes "thunder-sandbox" ∷ codes "jobs" ∷ [];
}

pub record RemoteJobPaths : Type 0 where
  pub job_id : Text
  pub root : PosixPath

-- the checks of `__post_init__`
unfoldable pub make_paths : Text → PosixPath → Result RemoteJobPaths
make_paths t r = do
  validate_job_id t
  guard r.absolute value_error
  ok (record { job_id = t; root = r })

unfoldable pub directory : RemoteJobPaths → PosixPath
directory p = p.root /ₚ p.job_id

-- the files of a job, by the property that names each
pub data JobFile : Type 0 where
  specification launcher status supervisor_pid stdout stderr : JobFile
  launcher_stderr submission_lock run_lock termination_request : JobFile

unfoldable pub file_name : JobFile → Text
file_name JobFile.specification = codes "spec.json"
file_name JobFile.launcher = codes "launch.sh"
file_name JobFile.status = codes "status.json"
file_name JobFile.supervisor_pid = codes "supervisor.pid"
file_name JobFile.stdout = codes "stdout"
file_name JobFile.stderr = codes "stderr"
file_name JobFile.launcher_stderr = codes "launcher.stderr"
file_name JobFile.submission_lock = codes "submission.lock"
file_name JobFile.run_lock = codes "run.lock"
file_name JobFile.termination_request = codes "termination.request"

unfoldable pub file_path : RemoteJobPaths → JobFile → PosixPath
file_path p f = directory p /ₚ file_name f

unfoldable pub container_job_directory : Text → Result PosixPath
container_job_directory t = do v ← validate_job_id t; ok (container_job_root /ₚ v)
