-- ===== src/Image/Context/Sound.antt =====
-- What a build context holds (thunder_sandbox/image.py).
use thunder_sandbox.Prelude.{
  true≢false, or_true, ◌≡◌, ◌≢◌, refl, sym, ◌∙◌, subst, inl, inr, Bool, true, false, ◌||◌, not,
  List, [], ◌∷◌, Text, text_eq, text_eq_refl, All, Bool-cases, if◌then◌else◌,
}
use thunder_sandbox.Common.Errors.{ok, ◌>>=◌, Yields, Yields-ok, Yields-err, Yields-bind}
use thunder_sandbox.Image.Ignore.{DockerIgnore}
use thunder_sandbox.Common.Sort.{sorted}
use thunder_sandbox.Common.Sort.Order.{
  Distinct, Ascending, sorted-All, sorted-Distinct, sorted-Ascending,
}
use thunder_sandbox.Image.Context.{
  Node, Entries, ContextFile, Walk, is_folder, child, is_seen, Inspected, folder_names, add_file,
  take_files, visit, descend, context_files,
}
use thunder_sandbox.Image.Context.Met.{Allowed, Found, inspect-Found}

-- the node at a path, under a folder
pub data At : Text → Entries → Text → Node → Type 0 where
  here :
      (parent n : Text) (x : Node) (es : Entries)
      → At parent (Entries.entry n x es) (child parent n) x
  later :
      (parent n : Text) (y : Node) (es : Entries) (path : Text) (x : Node)
      → At parent es path x
      → At parent (Entries.entry n y es) path x
  below :
      (parent n : Text) (sub es : Entries) (path : Text) (x : Node)
      → At (child parent n) sub path x
      → At parent (Entries.entry n (Node.folder sub) es) path x

module _ (nfc : Text → Text) (is_artifacts : Text → Bool) (ignore : DockerIgnore) where
  -- The files that were taken are regular files of the tree and have different names, which were met.
  record Good (root : Entries) (w : Walk) : Type 0 where
    allowed :
        All (λ f. Allowed nfc is_artifacts ignore f.1 f.0 × At [] root f.1 Node.regular) w.files
    distinct : Distinct w.files
    met_names : All (λ f. is_seen f.0 w.seen ≡ true) w.files

  module _ (root : Entries) where
    seen_more :
        (name : Text) (seen : List Text) (fs : List ContextFile)
        → All (λ f. is_seen f.0 seen ≡ true) fs
        → All (λ f. is_seen f.0 (name ∷ seen) ≡ true) fs
    seen_more name seen [] h = tt
    seen_more name seen (f ∷ fs) (e, h) = (or_true (text_eq name f.0) e, seen_more name seen fs h)

    unseen_differs :
        (name : Text) (seen : List Text) (fs : List ContextFile)
        → is_seen name seen ≡ false
        → All (λ f. is_seen f.0 seen ≡ true) fs
        → All (λ f. f.0 ≢ name) fs
    unseen_differs name seen [] u h = tt
    unseen_differs name seen (f ∷ fs) u (e, h) = (
      (λ q. true≢false (sym (subst (λ z. is_seen z seen ≡ true) q e) ∙ u)),
      unseen_differs name seen fs u h,
    )

    Good-Found :
        (path : Text) (w : Walk) (i : Inspected)
        → Found nfc is_artifacts ignore path w.seen i
        → Good root w
        → Good root (record w { seen = i.seen })
    Good-Found path w _ (Found.skipped name) g = g
    Good-Found path w _ (Found.met name a u) g = record {
      allowed = g.allowed;
      distinct = g.distinct;
      met_names = seen_more name w.seen w.files g.met_names;
    }

    folder_names-Good :
        (parent : Text) (es : Entries) (w : Walk)
        → Good root w
        → Yields (λ r. Good root r.1) (folder_names nfc is_artifacts ignore parent es w)
    unfolding folder_names
    folder_names-Good parent Entries.end w g = Yields-ok _ g
    folder_names-Good parent (Entries.entry n node es) w g =
        elim (Bool-cases (not (is_folder node) || is_artifacts (child parent n))) [
          | inl q ↦ rw q (folder_names-Good parent es w g)
          | inr q ↦ rw q (
              Yields-bind _ _ (λ i e. Yields-bind _ _ (λ r h. Yields-ok _ (
                (folder_names-Good parent es _ (
                    Good-Found _ w i ((inspect-Found nfc is_artifacts ignore _ node w.seen).at i e)
                      g)).at
                  r h))))
        ]

    add_file-Good :
        (path : Text) (node : Node) (w : Walk) (i : Inspected)
        → At [] root path node
        → Found nfc is_artifacts ignore path w.seen i
        → Good root w
        → Yields (Good root) (add_file nfc is_artifacts ignore path node i w)
    add_file-Good path node w _ a (Found.skipped name) g = Yields-ok _ g
    add_file-Good path Node.regular w _ a (Found.met name c u) g = Yields-ok _ (record {
      allowed = ((c, a), g.allowed);
      distinct = (unseen_differs name w.seen w.files u g.met_names, g.distinct);
      met_names = (rw (text_eq_refl name) refl, seen_more name w.seen w.files g.met_names);
    })
    add_file-Good path node w _ a (Found.met name c u) g = Yields-err _

    -- what is in the folder is in the tree
    abbrev Inside : Text → Entries → Type 0
    Inside parent es = (path : Text) (x : Node) → At parent es path x → At [] root path x

    Inside-later :
        (parent n : Text) (y : Node) (es : Entries)
        → Inside parent (Entries.entry n y es)
        → Inside parent es
    Inside-later parent n y es up path x a = up path x (At.later parent n y es path x a)

    Inside-below :
        (parent n : Text) (sub es : Entries)
        → Inside parent (Entries.entry n (Node.folder sub) es)
        → Inside (child parent n) sub
    Inside-below parent n sub es up path x a = up path x (At.below parent n sub es path x a)

    take_files-Good :
        (parent : Text) (es : Entries) (w : Walk)
        → Inside parent es
        → Good root w
        → Yields (Good root) (take_files nfc is_artifacts ignore parent es w)
    unfolding take_files
    take_files-Good parent Entries.end w up g = Yields-ok _ g
    take_files-Good parent (Entries.entry n node es) w up g =
        let up_rest = Inside-later parent n node es up in
        elim (Bool-cases (is_folder node)) [
          | inl q ↦ rw q (take_files-Good parent es w up_rest g)
          | inr q ↦ rw q (
              Yields-bind _ _ (λ i e. Yields-bind _ _ (λ v h. take_files-Good parent es v up_rest (
                (add_file-Good _ node w i (up _ node (At.here parent n node es))
                    ((inspect-Found nfc is_artifacts ignore _ node w.seen).at i e) g).at
                  v h))))
        ]

    visit-Good :
        (parent : Text) (es : Entries) (w : Walk)
        → Inside parent es
        → Good root w
        → Yields (λ r. Good root r.1) (visit nfc is_artifacts ignore parent es w)
    visit-Good parent es w up g = Yields-bind _ _ (λ r e. Yields-bind _ _ (λ v h.
        Yields-ok _
          ((take_files-Good parent es r.1 up ((folder_names-Good parent es w g).at r e)).at v h)))

    descend-Good :
        (parent : Text) (es : Entries) (walked : List Text) (w : Walk)
        → Inside parent es
        → Good root w
        → Yields (Good root) (descend nfc is_artifacts ignore parent es walked w)
    unfolding descend
    descend-Good parent Entries.end walked w up g = Yields-ok _ g
    descend-Good parent (Entries.entry n (Node.folder sub) es) walked w up g =
        let up_sub = Inside-below parent n sub es up in
        let inner : Yields (Good root) (
            if is_seen n walked
            then (visit nfc is_artifacts ignore (child parent n) sub w >>= λ r.
                descend nfc is_artifacts ignore (child parent n) sub r.0 r.1)
            else ok w) =
          elim (Bool-cases (is_seen n walked)) [
            | inl q ↦ rw q (
                Yields-bind _ _ (λ r e.
                  descend-Good (child parent n) sub r.0 r.1 up_sub
                    ((visit-Good (child parent n) sub w up_sub g).at r e)))
            | inr q ↦ rw q (Yields-ok _ g)
          ] in
        Yields-bind _ _ (λ v h.
          descend-Good parent es walked v (Inside-later parent n (Node.folder sub) es up)
            (inner.at v h))
    descend-Good parent (Entries.entry n y es) walked w up g =
        descend-Good parent es walked w (Inside-later parent n y es up) g

    -- what a build context is
    pub record IsContext (fs : List ContextFile) : Type 0 where
      pub regular_files :
          All (λ f. Allowed nfc is_artifacts ignore f.1 f.0 × At [] root f.1 Node.regular) fs
      pub distinct : Distinct fs
      pub ordered : Ascending fs

    context_files-Yields : Yields IsContext (context_files nfc is_artifacts ignore root)
    unfolding context_files
    context_files-Yields =
        let inside = λ (path : Text) (x : Node) (a : At [] root path x). a in
        Yields-bind _ _ (λ r e. Yields-bind _ _ (λ w h.
          let start : Walk = record { seen = []; files = [] } in
          let g =
            (descend-Good [] root r.0 r.1 inside (
                (visit-Good [] root start inside
                    (record { allowed = tt; distinct = tt; met_names = tt })).at
                  r e)).at
              w h in
          Yields-ok (sorted w.files) (record {
            regular_files = sorted-All _ w.files g.allowed;
            distinct = sorted-Distinct w.files g.distinct;
            ordered = sorted-Ascending w.files;
          })))

    -- If the files of a build context can be collected, then each is a regular file of the tree, and has
    -- a safe name that the `.dockerignore` does not exclude, unless it is the Dockerfile or that file
    -- itself; no two have one name, and they are in the order of their names.
    pub context_files-IsContext :
        (fs : List ContextFile) → context_files nfc is_artifacts ignore root ≡ ok fs → IsContext fs
    context_files-IsContext fs e = context_files-Yields.at fs e
