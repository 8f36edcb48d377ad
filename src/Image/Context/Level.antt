-- ===== src/Image/Context/Level.antt =====
-- What one folder adds to a build context (thunder_sandbox/image.py).
use thunder_sandbox.Prelude.{
  true≢false, ◌≡◌, refl, sym, ◌∙◌, ap, subst, ◌⊎◌, inl, inr, Bool, true, Text, Bool-cases,
}
use mathlib.Core.List.{Memᴰ}
use thunder_sandbox.Common.Errors.{ok, Yields, Yields-ok, Yields-err, Yields-bind}
use thunder_sandbox.Image.Ignore.{DockerIgnore}
use thunder_sandbox.Image.Context.{
  Node, Entries, Walk, is_folder, child, is_seen, Inspected, is_regular, add_file, take_files,
  visit,
}
use thunder_sandbox.Image.Context.Wanted.{
  is_wanted, Direct, Open, AsWanted, inspect-AsWanted, folder_names-Open,
}

module _ (nfc : Text → Text) (is_artifacts : Text → Bool) (ignore : DockerIgnore) where
  -- A file is in what a folder's files are added to.
  abbrev pub Has : Text → Walk → Type 0
  Has path w = Memᴰ (nfc path, path) w.files

  add_file-Has :
      (path : Text) (node : Node) (i : Inspected) (w : Walk)
      → Yields
          (λ v. (p : Text) → Has p w → Has p v)
          (add_file nfc is_artifacts ignore path node i w)
  add_file-Has path node i w = elim (Bool-cases i.taken) [
    | inr t ↦ rw (add_file, t) (Yields-ok _ (λ p h. h))
    | inl t ↦ elim (Bool-cases (is_regular node)) [
      | inl r ↦ rw (add_file, t, r) (Yields-ok _ (λ p h. Memᴰ.tail h))
      | inr r ↦ rw (add_file, t, r) (Yields-err _)
    ]
  ]

  add_file-wanted :
      (path : Text) (i : Inspected) (w : Walk)
      → AsWanted nfc is_artifacts ignore (nfc path) i
      → is_wanted nfc is_artifacts ignore (nfc path) ≡ true
      → Yields (Has path) (add_file nfc is_artifacts ignore path Node.regular i w)
  add_file-wanted path i w (e, t) h =
      rw (add_file, t, h) (Yields-ok _ (Memᴰ.head (ap (λ z. (z, path)) (sym e))))

  Direct-cases :
      (parent n : Text) (y : Node) (es : Entries) (p : Text)
      → Direct nfc is_artifacts ignore parent (Entries.entry n y es) p
      → ((p ≡ child parent n)
          × (y ≡ Node.regular)
          × (is_wanted nfc is_artifacts ignore (nfc (child parent n)) ≡ true))
        ⊎ Direct nfc is_artifacts ignore parent es p
  Direct-cases parent n _ es _ (Direct.here _ _ o) = inl (refl, refl, o)
  Direct-cases parent n y es p (Direct.later _ _ _ _ d) = inr d

  -- whatever `w` has, `v` has
  abbrev pub Keeps : Walk → Walk → Type 0
  Keeps w v = (p : Text) → Has p w → Has p v

  -- the loop over the files adds those that are wanted, and keeps what it has
  take_files-Has :
      (parent : Text) (es : Entries) (w : Walk)
      → Yields
          (λ v. Keeps w v × ((p : Text) → Direct nfc is_artifacts ignore parent es p → Has p v))
          (take_files nfc is_artifacts ignore parent es w)
  unfolding take_files
  take_files-Has parent Entries.end w = Yields-ok _ ((λ p h. h), (λ p d. elim d [ ]))
  take_files-Has parent (Entries.entry n node es) w = elim (Bool-cases (is_folder node)) [
    | inl q ↦ rw q (record {
      at = λ v e.
          let h = (take_files-Has parent es w).at v e in
          (
            h.0,
            λ p d. elim (Direct-cases parent n node es p d) [
              | inl (s, r, o) ↦ absurd (true≢false (sym q ∙ ap is_folder r))
              | inr d ↦ h.1 p d
            ],
          );
    })
    | inr q ↦ rw q (
        Yields-bind _ _ (λ i e. Yields-bind _ _ (λ v g. record {
          at = λ u k.
              let h = (take_files-Has parent es v).at u k in
              (
                (λ p z. h.0 p ((add_file-Has _ node i w).at v g p z)),
                λ p d. elim (Direct-cases parent n node es p d) [
                  | inl (s, r, o) ↦ h.0 p (
                      rw s (
                        (add_file-wanted (child parent n) i w
                            ((inspect-AsWanted nfc is_artifacts ignore _ node w.seen).at i e) o).at
                          v
                          (subst
                            (λ y. add_file nfc is_artifacts ignore (child parent n) y i w ≡ ok v) r
                            g)))
                  | inr d ↦ h.1 p d
                ],
              );
        })))
  ]

  pub visit-Has :
      (parent : Text) (es : Entries) (w : Walk)
      → Yields
          (λ r.
            Keeps w r.1
            × ((p : Text) → Direct nfc is_artifacts ignore parent es p → Has p r.1)
            × ((n : Text) → Open nfc is_artifacts ignore parent es n → is_seen n r.0 ≡ true))
          (visit nfc is_artifacts ignore parent es w)
  visit-Has parent es w = Yields-bind _ _ (λ r e. Yields-bind _ _ (λ v g.
      let o = (folder_names-Open nfc is_artifacts ignore parent es w).at r e in
      let h = (take_files-Has parent es r.1).at v g in
      Yields-ok _ ((λ p z. h.0 p (subst (λ fs. Memᴰ (nfc p, p) fs) (sym o.0) z)), h.1, o.1)))
