-- ===== src/Examples/Transfer.antt =====
-- Publications of thunder_sandbox/asynchronous/_transfer.py.
use thunder_sandbox.Prelude.{◌≡◌, refl, true, false, [], ◌∷◌, codes}
use thunder_sandbox.Common.Errors.{os_error, err}
use thunder_sandbox.Transfer.Publish.{
  Faults, Disk, missing, folder, replace_local_transfer, publish_local_contents,
  publish_local_transfer,
}
use thunder_sandbox.Transfer.Publish.Outcome.{
  Published, published, publish_local_transfer-Published,
}
use thunder_sandbox.Transfer.Path.{parse_transfer_path}
use thunder_sandbox.Transfer.Path.Parsed.{Parsed, parse_transfer_path-Parsed}

abbrev no_faults : Faults
no_faults = record {
  move_away = false;
  publish = false;
  restore = false;
  remove_backup = false;
  copy_target = false;
  copy_stage = false;
  remove_combined = false;
}

abbrev two_folders : Disk
two_folders = record {
  stage = folder ((codes "a", 1) ∷ []);
  target = folder ((codes "a", 7) ∷ (codes "b", 8) ∷ []);
  backup = missing;
  combined = missing;
}

-- the last step fails, and the old folder is put back
abbrev fails_late : Faults
fails_late = record no_faults { publish = true }

publish_local_transfer-Published_example :
    Published
      (published two_folders.stage two_folders.target)
      two_folders.target
      (publish_local_transfer fails_late two_folders)
publish_local_transfer-Published_example =
    publish_local_transfer-Published fails_late two_folders refl

put_back_whole : publish_local_transfer fails_late two_folders ≡ (err os_error, two_folders)
unfolding publish_local_transfer publish_local_contents replace_local_transfer
put_back_whole = refl

overlaid :
    (publish_local_transfer no_faults two_folders).1.target
    ≡ folder ((codes "a", 1) ∷ (codes "a", 7) ∷ (codes "b", 8) ∷ [])
unfolding publish_local_transfer publish_local_contents replace_local_transfer
overlaid = refl

contents_of_root :
    parse_transfer_path 47 (codes "box:/.")
    ≡ record { path = codes "box:/"; contents_only = true; name = codes "contents" }
unfolding parse_transfer_path
contents_of_root = refl

name_of_folder : (parse_transfer_path 47 (codes "/data/runs//")).name ≡ codes "runs"
unfolding parse_transfer_path
name_of_folder = refl

parse_transfer_path-Parsed_example :
    Parsed 47 (codes "/data/runs//") (parse_transfer_path 47 (codes "/data/runs//"))
parse_transfer_path-Parsed_example = parse_transfer_path-Parsed 47 (codes "/data/runs//")
