-- ===== src/Transfer/Publish/Outcome.antt =====
-- What a publication leaves behind, whatever fails.
use thunder_sandbox.Prelude.{
  ℕ, ◌≡◌, ◌∙◌, sym, ap, ◌⊎◌, inl, inr, refl, Bool, true, false, ◌&&◌, ◌||◌, not, Option, none, some,
  [], ◌∷◌, ◌++◌, Text, text_eq, arith, if◌then◌else◌,
}
use thunder_sandbox.Common.Errors.{ErrorKind, os_error, Result, ok, err, raise}
use thunder_sandbox.Transfer.Publish.{
  Files, Node, missing, file, folder, link_to_nothing, link_to_file, link_to_folder, is_dir,
  is_symlink, exists, files_of, Faults, Disk, Source, from_stage, from_combined, source_node,
  move_to_target, swap, replace_local_transfer, remove_combined, overlay, combine,
  publish_local_contents, publish_local_transfer,
}

-- A publication of `new` over `old` leaves `new` when it returns, and no backup; when it raises, the
-- target is as it was, or published, or its old node is in the backup.
abbrev pub Published : Node → Node → Result (Unit {0}) × Disk → Type 0
Published new old (ok u, d) = (d.target ≡ new) × (d.backup ≡ missing)
Published new old (err e, d) =
    (d.target ≡ old) ⊎ ((d.target ≡ new) ⊎ ((d.target ≡ missing) × (d.backup ≡ old)))

choose :
    (new old : Node) (x : Bool) (m n : Result (Unit {0}) × Disk)
    → Published new old m
    → Published new old n
    → Published new old (if◌then◌else◌ {A = Result (Unit {0}) × Disk} x m n)
choose new old true m n h k = h
choose new old false m n h k = k

moved_target : (s : Source) (d : Disk) → (move_to_target s d).target ≡ source_node s d
moved_target from_stage d = refl
moved_target from_combined d = refl

moved_backup : (s : Source) (d : Disk) → (move_to_target s d).backup ≡ d.backup
moved_backup from_stage d = refl
moved_backup from_combined d = refl

source_aside :
    (s : Source) (d : Disk) (b t : Node)
    → source_node s (record d { backup = b; target = t }) ≡ source_node s d
source_aside from_stage d b t = refl
source_aside from_combined d b t = refl

swap-Published :
    (f : Faults) (s : Source) (d : Disk) (new old : Node)
    → source_node s d ≡ new
    → d.target ≡ missing
    → d.backup ≡ old
    → Published new old (swap f s d)
swap-Published f s d new old n t b =
    choose new old f.publish _ _ (choose new old f.restore _ _ (inr (inr (t, b))) (inl b)) (
      choose new old f.remove_backup _ _ (inr (inl (moved_target s d ∙ n)))
        (moved_target s d ∙ n, refl))

replace-Published :
    (f : Faults) (s : Source) (d : Disk) (new : Node)
    → source_node s d ≡ new
    → d.backup ≡ missing
    → Published new d.target (replace_local_transfer f s d)
unfolding replace_local_transfer
replace-Published f s d new n b =
    choose new d.target (is_dir d.target && not (is_symlink d.target)) _ _
      (choose new d.target f.move_away _ _ (inl refl)
        (swap-Published f s _ new d.target (source_aside s d d.target missing ∙ n) refl refl))
      (choose new d.target f.publish _ _ (inl refl) (moved_target s d ∙ n, moved_backup s d ∙ b))

remove-Published :
    (new old : Node) (f : Faults) (p : Result (Unit {0}) × Disk)
    → Published new old p
    → Published new old (remove_combined f p)
remove-Published new old f (ok u, d) h =
    choose new old (exists d.combined || is_symlink d.combined) _ _
      (choose new old f.remove_combined _ _ (inr (inl h.0)) h) h
remove-Published new old f (err e, d) h =
    choose new old (exists d.combined || is_symlink d.combined) _ _
      (choose new old f.remove_combined _ _ h h) h

-- the files of the download over those that were there
abbrev pub merged : Node → Node → Node
merged stage target = folder (files_of stage ++ files_of target)

overlay-Published :
    (f : Faults) (d : Disk) (target : Node)
    → files_of d.combined ≡ files_of target
    → d.backup ≡ missing
    → Published (merged d.stage target) d.target (overlay f d)
overlay-Published f d target c b =
    choose (merged d.stage target) d.target f.copy_stage _ _ (inl refl) (
      replace-Published f from_combined _ (merged d.stage target)
        (ap (λ fs. folder (files_of d.stage ++ fs)) c) b)

absent_files : (n : Node) → exists n ≡ false → files_of n ≡ []
absent_files missing h = refl
absent_files link_to_nothing h = refl
absent_files (file c) h = refl
absent_files link_to_file h = refl
absent_files (folder fs) h = absurd (cc)
absent_files (link_to_folder fs) h = absurd (cc)

combine-Published :
    (f : Faults) (d : Disk)
    → d.backup ≡ missing
    → Published (merged d.stage d.target) d.target (combine f d)
combine-Published f d b = cases (exists d.target || is_symlink d.target) refl
  where
    cases :
        (x : Bool)
        → (exists d.target || is_symlink d.target) ≡ x
        → Published (merged d.stage d.target) d.target (
            if◌then◌else◌ {A = Result (Unit {0}) × Disk} x
              (if not (is_dir d.target)
                then (raise ErrorKind.sandbox_failed, d)
                else if f.copy_target
                then (err os_error, record d { combined = folder [] })
                else overlay f (record d { combined = folder (files_of d.target) }))
              (if f.copy_target
                then (err os_error, d)
                else overlay f (record d { combined = folder [] })))
    cases true e =
        choose _ d.target (not (is_dir d.target)) _ _ (inl refl)
          (choose _ d.target f.copy_target _ _ (inl refl) (overlay-Published f _ d.target refl b))
    cases false e =
        choose _ d.target f.copy_target _ _ (inl refl)
          (overlay-Published f _ d.target (sym (absent_files d.target (ground (arith, e)))) b)

pub publish_contents-Published :
    (f : Faults) (d : Disk)
    → d.backup ≡ missing
    → Published (merged d.stage d.target) d.target (publish_local_contents f d)
unfolding publish_local_contents
publish_contents-Published f d b =
    choose _ d.target (not (is_dir d.stage)) _ _ (inl refl) (
      remove-Published (merged d.stage d.target) d.target f (combine f d) (combine-Published f d b))

-- what a complete publication puts in the target's place
abbrev pub published : Node → Node → Node
published stage target = if is_dir stage && is_dir target then merged stage target else stage

-- Whichever calls of the operating system fail, a download is published as a whole or not at all. If
-- the call returns, the target is the staged node, or both folders merged, and no backup is left. If
-- it raises, the target is as it was, or is the complete publication, or is missing with its old
-- node in the backup.
pub publish_local_transfer-Published :
    (f : Faults) (d : Disk)
    → d.backup ≡ missing
    → Published (published d.stage d.target) d.target (publish_local_transfer f d)
unfolding publish_local_transfer
publish_local_transfer-Published f d b =
    choose _ d.target (not (exists d.stage) && not (is_symlink d.stage)) _ _ (inl refl)
      (cases (is_dir d.stage && is_dir d.target))
  where
    cases :
        (x : Bool)
        → Published (if x then merged d.stage d.target else d.stage) d.target (
            if◌then◌else◌ {A = Result (Unit {0}) × Disk} x
              (publish_local_contents f d)
              (replace_local_transfer f from_stage d))
    cases true = publish_contents-Published f d b
    cases false = replace-Published f from_stage d d.stage refl b

abbrev pub lookup : Text → Files → Option ℕ
lookup p [] = none
lookup p ((q, c) ∷ fs) = if text_eq q p then some c else lookup p fs

abbrev or_else : Option ℕ → Option ℕ → Option ℕ
or_else none o = o
or_else (some c) o = some c

-- merging two folders, a path has the content that it has in the download, and otherwise the one
-- that it had: no file of the target is lost, and none of the download is left out.
lookup-merged :
    (stage target : Node) (p : Text)
    → lookup p (files_of (merged stage target))
      ≡ or_else (lookup p (files_of stage)) (lookup p (files_of target))
lookup-merged stage target p = over (files_of stage)
  where
    over :
        (fs : Files)
        → lookup p (fs ++ files_of target) ≡ or_else (lookup p fs) (lookup p (files_of target))
    over [] = refl
    over ((q, c) ∷ fs) = ground (arith, over fs)
