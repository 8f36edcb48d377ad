-- ===== src/Config/Paths/Apart.antt =====
-- That no workspace has the certificate of another (thunder_sandbox/_common/config.py).
use thunder_sandbox.Prelude.{
  unequal, ℕ, suc, ◌<◌, ◌≡◌, ◌≢◌, ◌⊎◌, inl, inr, refl, sym, ap, ◌∙◌, subst, arith, true, false,
  Option, some, [], ◌∷◌, ◌++◌, Text, codes, text_eq, text_eq→eq, has_char, take, length,
  length-append, Bool-cases, Option-cases, or_false, zero, ◌==◌,
}
use mathlib.Core.List.{append_cancel_left, append_cancel_right}
use thunder_sandbox.Common.Errors.{ok, Yields, Yields-ok, Yields-bind, ok≢err, ok-injective}
use thunder_sandbox.Jobs.Paths.{PosixPath, ◌/ₚ◌}
use thunder_sandbox.Jobs.Paths.Laws.{join-component, is_component}
use thunder_sandbox.Config.Paths.{
  ThunderPaths, main_workspace_id, workspace_key, workspace_file, workspace_ssh_certificate,
  workspace_ssh_certificate_meta,
}

take-no_slash : (n : ℕ) (t : Text) → has_char 47 t ≡ false → has_char 47 (take n t) ≡ false
take-no_slash zero t h = refl
take-no_slash (suc n) [] h = refl
take-no_slash (suc n) (c ∷ cs) h =
    let b = or_false (c == 47) _ h in rw (b.0, take-no_slash n cs b.1) refl

append-no_slash :
    (s t : Text) → has_char 47 s ≡ false → has_char 47 t ≡ false → has_char 47 (s ++ t) ≡ false
append-no_slash [] t h k = k
append-no_slash (c ∷ cs) t h k =
    let b = or_false (c == 47) _ h in rw (b.0, append-no_slash cs t b.1 k) refl

-- the entry of this name in the folder of the keys
abbrev entry : ThunderPaths → Text → PosixPath
entry p n = record { absolute = p.sandbox_keys.absolute; parts = p.sandbox_keys.parts ++ (n ∷ []) }

entry-injective : (p : ThunderPaths) (m n : Text) → entry p m ≡ entry p n → m ≡ n
entry-injective p m n e =
    let q = append_cancel_left p.sandbox_keys.parts (m ∷ []) (n ∷ []) (ap (λ x. x.parts) e) in cc

-- the name of the main workspace's file has no room for a key
too_short :
    (tail suffix : Text)
    → length tail < length suffix
    → (k : Text) → codes "id_ed25519-" ++ tail ≢ codes "id_ed25519-" ++ (k ++ suffix)
too_short tail suffix h k e =
    let q = ap length (append_cancel_left (codes "id_ed25519-") tail (k ++ suffix) e) in
    omega (arith, h, q, length-append k suffix)

-- Two workspaces are one, or neither is the main one and the first 16 characters of their digests are
-- the same.
abbrev pub Shared : (Text → Option Text) → Text → Text → Type 0
Shared sha256 a b =
    (a ≡ b)
    ⊎ ((a ≢ codes "main")
        × (b ≢ codes "main")
        × ((h g : Text) × (sha256 a ≡ some h) × (sha256 b ≡ some g) × (take 16 h ≡ take 16 g)))

workspace_key-take :
    (sha256 : Text → Option Text) (a k : Text)
    → workspace_key sha256 a ≡ ok k
    → (h : Text) × (sha256 a ≡ some h) × (take 16 h ≡ k)
workspace_key-take sha256 a k = elim (Option-cases (sha256 a)) [
  | inl n ↦ rw (workspace_key, n) (λ e. absurd (ok≢err e))
  | inr (h, q) ↦ rw (workspace_key, q) (λ e. (h, refl, ok-injective e))
]

module _ (sha256 : Text → Option Text)
    (plain : (t h : Text) → sha256 t ≡ some h → has_char 47 h ≡ false) where
  key-no_slash : (a k : Text) → workspace_key sha256 a ≡ ok k → has_char 47 k ≡ false
  key-no_slash a k = elim (Option-cases (sha256 a)) [
    | inl n ↦ rw (workspace_key, n) (λ e. absurd (ok≢err e))
    | inr (h, q) ↦
        rw (workspace_key, q)
          (λ e.
            subst (λ t. has_char 47 t ≡ false) (ok-injective e) (take-no_slash 16 h (plain a h q)))
  ]

  -- the name of the file of a workspace, where `main` is that of the main one
  data Named (main suffix a : Text) : Text → Type 0 where
    of_main : a ≡ main_workspace_id → Named main suffix a main
    of_key :
        (k : Text)
        → a ≢ codes "main"
        → workspace_key sha256 a ≡ ok k
        → Named main suffix a (codes "id_ed25519-" ++ (k ++ suffix))

  -- such a file in the folder of the keys
  abbrev File : ThunderPaths → Text → Text → Text → PosixPath → Type 0
  File p main suffix a x = (n : Text) × (Named main suffix a n × (x ≡ entry p n))

  workspace_file-File :
      (p : ThunderPaths) (main suffix a : Text)
      → is_component main ≡ true
      → has_char 47 suffix ≡ false
      → Yields (File p main suffix a) (workspace_file sha256 (p.sandbox_keys /ₚ main) suffix p a)
  workspace_file-File p main suffix a c s = elim (Bool-cases (text_eq a main_workspace_id)) [
    | inl q ↦
        rw (workspace_file, q)
          (Yields-ok _
            (main, (Named.of_main (text_eq→eq _ _ q), join-component p.sandbox_keys main c)))
    | inr q ↦
        rw (workspace_file, q)
          (Yields-bind _ _ (λ k e.
            let whole = append-no_slash k suffix (key-no_slash a k e) s in
            Yields-ok _ (
              codes "id_ed25519-" ++ (k ++ suffix),
              (
                Named.of_key k (unequal _ _ q) e,
                join-component p.sandbox_keys (codes "id_ed25519-" ++ (k ++ suffix))
                    (rw whole refl),
              ),
            )))
  ]

  Named-Shared :
      (main suffix a b n m : Text)
      → ((k : Text) → main ≢ codes "id_ed25519-" ++ (k ++ suffix))
      → Named main suffix a n
      → Named main suffix b m
      → n ≡ m
      → Shared sha256 a b
  Named-Shared main suffix a b _ _ d (Named.of_main e) (Named.of_main g) q = inl (e ∙ sym g)
  Named-Shared main suffix a b _ _ d (Named.of_main e) (Named.of_key k u g) q = absurd (d k q)
  Named-Shared main suffix a b _ _ d (Named.of_key k u e) (Named.of_main g) q = absurd (d k (sym q))
  Named-Shared main suffix a b _ _ d (Named.of_key k u e) (Named.of_key j v g) q =
      let same =
        append_cancel_right k j suffix
          (append_cancel_left (codes "id_ed25519-") (k ++ suffix) (j ++ suffix) q) in
      let (h, x, s) = workspace_key-take sha256 a k e in
      let (i, y, t) = workspace_key-take sha256 b j g in
      inr (u, v, (h, i, x, y, s ∙ (same ∙ sym t)))

  files-Shared :
      (p : ThunderPaths) (tail suffix a b : Text) (x : PosixPath)
      → is_component (codes "id_ed25519-" ++ tail) ≡ true
      → has_char 47 suffix ≡ false
      → length tail < length suffix
      → workspace_file sha256 (p.sandbox_keys /ₚ (codes "id_ed25519-" ++ tail)) suffix p a ≡ ok x
      → workspace_file sha256 (p.sandbox_keys /ₚ (codes "id_ed25519-" ++ tail)) suffix p b ≡ ok x
      → Shared sha256 a b
  files-Shared p tail suffix a b x c s shorter e g =
      let main = codes "id_ed25519-" ++ tail in
      let (n, (h, q)) = (workspace_file-File p main suffix a c s).at x e in
      let (m, (i, r)) = (workspace_file-File p main suffix b c s).at x g in
      Named-Shared main suffix a b n m (too_short tail suffix shorter) h i
        (entry-injective p n m (sym q ∙ r))

  -- If the digest of no text has a slash, two workspaces whose certificates, or the expiries of these,
  -- stand in one file are one, or neither is the main workspace and their digests begin alike; so the
  -- file of the main workspace is never that of another.
  pub workspace_ssh_certificate-Shared :
      (p : ThunderPaths) (a b : Text) (x : PosixPath)
      → ((workspace_ssh_certificate sha256 p a ≡ ok x)
          × (workspace_ssh_certificate sha256 p b ≡ ok x))
        ⊎ ((workspace_ssh_certificate_meta sha256 p a ≡ ok x)
            × (workspace_ssh_certificate_meta sha256 p b ≡ ok x))
      → Shared sha256 a b
  unfolding workspace_ssh_certificate workspace_ssh_certificate_meta
  workspace_ssh_certificate-Shared p a b x (inl (e, g)) =
      files-Shared p (codes "cert.pub") (codes "-cert.pub") a b x refl refl (omega arith) e g
  workspace_ssh_certificate-Shared p a b x (inr (e, g)) =
      files-Shared p (codes "cert.json") (codes "-cert.json") a b x refl refl (omega arith) e g
