-- ===== src/Jobs/Paths/Laws.antt =====
-- A validated job ID neither leaves the job root nor meets another job.
use thunder_sandbox.Prelude.{
  ◌≡◌, refl, ap, sym, Bool, true, false, ◌&&◌, not, [], ◌∷◌, ◌++◌, Text, codes, text_eq, all, arith,
  has_char, is_empty, append_assoc, ◌∙◌,
}
use mathlib.Core.List.{append_cancel_left}
use thunder_sandbox.Common.Errors.{ok, ◌>>=◌}
use thunder_sandbox.Jobs.Paths.{
  is_hex, is_job_id, validate_job_id, PosixPath, split_slash, ◌/ₚ◌, RemoteJobPaths, make_paths,
  directory, JobFile, file_name, file_path,
}

-- a text that names one entry of a directory
abbrev pub is_component : Text → Bool
is_component t = not (has_char b'/' t) && (not (is_empty t) && not (text_eq t (codes ".")))

split-no_slash : (t : Text) → has_char b'/' t ≡ false → split_slash t ≡ t ∷ []
unfolding split_slash
split-no_slash [] h = refl
split-no_slash (c ∷ cs) h = ground (arith, split-no_slash cs)

pub join-component :
    (p : PosixPath) (t : Text)
    → is_component t ≡ true
    → p /ₚ t ≡ record { absolute = p.absolute; parts = p.parts ++ t ∷ [] }
unfolding ◌/ₚ◌
join-component p [] h = ground arith
join-component p (c ∷ cs) h = ground (arith, split-no_slash (c ∷ cs))

hex_no_slash : (t : Text) → all is_hex t ≡ true → has_char b'/' t ≡ false
hex_no_slash [] h = refl
hex_no_slash (c ∷ cs) h = ground (arith, hex_no_slash cs)

job_id-component : (t : Text) → is_job_id t ≡ true → is_component t ≡ true
unfolding is_job_id
job_id-component [] h = ground arith
job_id-component (c ∷ []) h = ground arith
job_id-component (c ∷ d ∷ cs) h = ground (arith, hex_no_slash (c ∷ d ∷ cs))

file_name-component : (f : JobFile) → is_component (file_name f) ≡ true
unfolding file_name
file_name-component JobFile.status = refl
file_name-component _ = refl

directory-parts :
    (p : RemoteJobPaths)
    → is_job_id p.job_id ≡ true
    → directory p ≡ record { absolute = p.root.absolute; parts = p.root.parts ++ p.job_id ∷ [] }
unfolding directory
directory-parts p h = join-component p.root p.job_id (job_id-component p.job_id h)

made-eq :
    (t : Text) (r : PosixPath) {p : RemoteJobPaths}
    → make_paths t r ≡ ok p
    → (is_job_id t ≡ true) × (r.absolute ≡ true) × (p ≡ record { job_id = t; root = r })
unfolding make_paths validate_job_id ◌>>=◌
made-eq t r h = ground arith

-- Each file of a job lies in the job's own directory, which lies directly in the root.
pub file_path_lem :
    (t : Text) (r : PosixPath) (p : RemoteJobPaths) (f : JobFile)
    → make_paths t r ≡ ok p
    → file_path p f ≡ record { absolute = true; parts = r.parts ++ (t ∷ file_name f ∷ []) }
unfolding file_path
file_path_lem t r p f h =
    let (valid, absolute, made) = made-eq t r h in
    rw (
      made,
      directory-parts (record { job_id = t; root = r }) valid,
      join-component _ (file_name f) (file_name-component f),
      absolute,
      append_assoc,
    )

file_name-injective : (f g : JobFile) → file_name f ≡ file_name g → f ≡ g
unfolding file_name
file_name-injective JobFile.status g h = ground arith
file_name-injective _ g h = ground arith

-- Two files with one path belong to one job and are the same file.
pub file_path-injective :
    (t u : Text) (r : PosixPath) (p q : RemoteJobPaths) (f g : JobFile)
    → make_paths t r ≡ ok p
    → make_paths u r ≡ ok q
    → file_path p f ≡ file_path q g
    → (t ≡ u) × (f ≡ g)
file_path-injective t u r p q f g h k e =
    let paths = sym (file_path_lem t r p f h) ∙ e ∙ file_path_lem u r q g k in
    let ends =
      append_cancel_left r.parts (t ∷ file_name f ∷ []) (u ∷ file_name g ∷ [])
        (ap (λ (x : PosixPath). x.parts) paths) in
    let same_id : t ≡ u = cc in
    let same_name : file_name f ≡ file_name g = cc in (same_id, file_name-injective f g same_name)
