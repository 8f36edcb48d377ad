-- ===== src/Image/Archive/Built.antt =====
-- What is left of the making of a build context (thunder_sandbox/image.py).
use thunder_sandbox.Prelude.{
  ◌*◌, ◌++◌, ◌≢◌, ◌⊎◌, All, subst, text_eq, text_eq→eq, unequal, ℕ, ◌≤◌, ◌≡◌, refl, ap, inl, inr,
  Bool, false, not, none, some, List, [], ◌∷◌, Text, codes, any, leb→le, Bool-cases, Option-cases,
}
use thunder_sandbox.Common.Errors.{
  Error, Result, Result-cases, ok, err, ok≢err, ok-injective, guard-eq-ok, Yields, Yields-ok,
  Yields-bind,
}
use thunder_sandbox.Image.Context.{ContextFile}
use thunder_sandbox.Image.Archive.{
  Bytes, Archive, max_build_context_bytes, Opened, unreadable, irregular, broken, contents, Disk,
  BuildContext, Outcome, prepare, read_file, add_files, extract, described, extracted, describe,
  or_remove, written, with_files, create_build_context, is_dockerfile,
}

-- An archive has the files, in their order, with what they hold, and nothing else.
pub data Holds (open_path : Text → Opened) : List ContextFile → Archive → Type 0 where
  nothing : Holds open_path [] []
  file :
      (name path : Text) (b : Bytes) (fs : List ContextFile) (a : Archive)
      → open_path path ≡ contents b
      → Holds open_path fs a
      → Holds open_path ((name, path) ∷ fs) ((name, b) ∷ a)

read_file-contents : (o : Opened) (b : Bytes) → read_file o ≡ ok b → o ≡ contents b
read_file-contents unreadable b = λ e. absurd (ok≢err e)
read_file-contents irregular b = λ e. absurd (ok≢err e)
read_file-contents broken b = λ e. absurd (ok≢err e)
read_file-contents (contents c) b = λ e. ap contents (ok-injective e)

add_files-Holds :
    (open_path : Text → Opened) (fs : List ContextFile)
    → Yields (Holds open_path fs) (add_files open_path fs)
unfolding add_files
add_files-Holds open_path [] = Yields-ok _ Holds.nothing
add_files-Holds open_path (f ∷ fs) = Yields-bind _ _ (λ b e. Yields-bind _ _ (λ a g.
    Yields-ok _ (
      Holds.file f.0 f.1 b fs a (read_file-contents _ b e)
        ((add_files-Holds open_path fs).at a g))))

-- the last member of the name holds `b`
abbrev pub LastNamed : Text → Bytes → Archive → Type 0
LastNamed name b a =
    (before after : Archive) × (a ≡ before ++ ((name, b) ∷ after)) × All (λ m. m.0 ≢ name) after

extract-cases :
    (name : Text) (a : Archive)
    → ((extract name a ≡ none) × All (λ m. m.0 ≢ name) a)
      ⊎ ((b : Bytes) × (extract name a ≡ some b) × LastNamed name b a)
extract-cases name [] = inl (refl, tt)
extract-cases name ((n, b) ∷ ms) = elim (extract-cases name ms) [
  | inr (c, e, (x, y, q, h)) ↦ inr (c, rw e refl, ((n, b) ∷ x, y, ap (λ z. (n, b) ∷ z) q, h))
  | inl (e, h) ↦ elim (Bool-cases (text_eq n name)) [
    | inl q ↦ inr (b, rw e (rw q refl), ([], ms, ap (λ z. (z, b) ∷ ms) (text_eq→eq _ _ q), h))
    | inr q ↦ inl (rw e (rw q refl), (unequal _ _ q, h))
  ]
]

extract-LastNamed :
    (name : Text) (a : Archive) (b : Bytes) → extract name a ≡ some b → LastNamed name b a
extract-LastNamed name a b e = elim (extract-cases name a) [
  | inl (q, h) ↦ absurd (cc)
  | inr (c, q, h) ↦ subst (λ z. LastNamed name z a) (let s : c ≡ b = cc in s) h
]

module _ (size : Archive → ℕ) (digest_file : Archive → Text) (digest : Bytes → Text) where
  -- A build context that is made stands on the disk as an archive of exactly the files, and is no larger
  -- than the limit. Its hashes are of the archive, of the last member that is called `Dockerfile`, of
  -- the options, and of these three together. Nothing stands there after an exception, if the archive
  -- can be removed.
  pub data Built (d : Disk) (files : Result (List ContextFile)) : Outcome → Type 0 where
    made :
        (fs : List ContextFile) (a : Archive) (b : Bytes)
        → files ≡ ok fs
        → Holds d.open_path fs a
        → size a ≤ 5 * 1024 * 1024 * 1024
        → LastNamed (codes "Dockerfile") b a
        → Built d files (record {
          result = ok (record {
            archive_bytes = size a;
            context_hash = digest_file a;
            dockerfile_hash = digest b;
            build_options_hash =
                digest (codes "thunder-sandbox-build-options-v1" ++ (0 ∷ codes "Dockerfile"));
            recipe_hash = digest (
                codes "thunder-sandbox-dockerfile-recipe-v1"
                ++ (0
                    ∷ (digest_file a
                        ++ (0
                            ∷ (digest b
                                ++ (0
                                    ∷ digest (
                                        codes "thunder-sandbox-build-options-v1"
                                        ++ (0 ∷ codes "Dockerfile"))))))));
          });
          left = some a;
        })
    removed : (e : Error) → Built d files (record { result = err e; left = none })
    stuck :
        (e : Error) (a : Archive)
        → d.unlinks ≡ false
        → Built d files (record { result = err e; left = some a })

  -- what is described is an archive within the limit that has a Dockerfile
  abbrev Describes : Archive → BuildContext → Type 0
  Describes a c =
      (size a ≤ max_build_context_bytes)
      × ((b : Bytes) × (extract (codes "Dockerfile") a ≡ some b)
          × (c ≡ described size digest_file digest a b))

  extracted-some :
      (a : Archive) (b : Bytes)
      → extracted size digest_file digest a ≡ ok b
      → extract (codes "Dockerfile") a ≡ some b
  extracted-some a b = elim (Option-cases (extract (codes "Dockerfile") a)) [
    | inl q ↦ rw (extracted, q) (λ e. absurd (ok≢err e))
    | inr (c, q) ↦ rw (extracted, q) (λ e. ap some (ok-injective e))
  ]

  describe-Describes :
      (reads : Bool) (a : Archive) → Yields (Describes a) (describe size digest_file digest reads a)
  unfolding describe
  describe-Describes reads a = Yields-bind _ _ (λ u e. Yields-bind _ _ (λ v g.
      Yields-bind _ _
        (λ b h. Yields-ok _ (leb→le _ _ (guard-eq-ok _ _ g), (b, extracted-some a b h, refl)))))

  failed-Built :
      (d : Disk) (files : Result (List ContextFile)) (a : Archive) (e : Error)
      → Built d files (or_remove size digest_file digest d.unlinks a (err e))
  failed-Built d files a e = elim (Bool-cases d.unlinks) [
    | inl q ↦ rw q (Built.removed e)
    | inr q ↦ rw (or_remove, q) (Built.stuck Error.os_error a refl)
  ]

  or_remove-Built :
      (d : Disk) (fs : List ContextFile) (a : Archive) (r : Result BuildContext)
      → Holds d.open_path fs a
      → ((c : BuildContext) → r ≡ ok c → Describes a c)
      → Built d (ok fs) (or_remove size digest_file digest d.unlinks a r)
  or_remove-Built d fs a (ok c) h k =
      let (l, (b, x, e)) = k c refl in rw e (Built.made fs a b refl h l (extract-LastNamed _ a b x))
  or_remove-Built d fs a (err e) h k = failed-Built d (ok fs) a e

  written-Built :
      (d : Disk) (fs : List ContextFile)
      → Built d (ok fs) (written size digest_file digest d (add_files d.open_path fs))
  written-Built d fs = elim (Result-cases (add_files d.open_path fs)) [
    | inl (a, q) ↦
        rw (written, q)
          (or_remove-Built d fs a (describe size digest_file digest d.reads a)
            ((add_files-Holds d.open_path fs).at a q) ((describe-Describes d.reads a).at))
    | inr (e, q) ↦ rw (written, q) (failed-Built d (ok fs) [] e)
  ]

  with_files-Built :
      (d : Disk) (files : Result (List ContextFile))
      → Built d files (with_files size digest_file digest d files)
  with_files-Built d (err e) = Built.removed e
  with_files-Built d (ok fs) = elim (Bool-cases (not (any is_dockerfile fs))) [
    | inl p ↦ rw (with_files, p) (Built.removed _)
    | inr p ↦ elim (Bool-cases (not d.creates)) [
      | inl q ↦ rw (with_files, p, q) (Built.removed _)
      | inr q ↦ rw (with_files, p, q) (written-Built d fs)
    ]
  ]

  -- However the making of a build context ends, it keeps its promise. A context that is returned stands
  -- on the disk as an archive of exactly the files, in their order and with what they hold; the archive
  -- is no larger than the limit and has a Dockerfile, and the hashes are of both. After an exception
  -- nothing is left, unless the archive cannot be removed.
  pub create_build_context-Built :
      (d : Disk) (files : Result (List ContextFile))
      → Built d files (create_build_context size digest_file digest d files)
  unfolding create_build_context
  create_build_context-Built d files = elim (Result-cases (prepare d)) [
    | inl (u, q) ↦ rw (create_build_context, q) (with_files-Built d files)
    | inr (e, q) ↦ rw (create_build_context, q) (Built.removed e)
  ]
