-- ===== src/Image/Context/Met.antt =====
-- What `inspect` lets through of a build context (thunder_sandbox/image.py).
use thunder_sandbox.Image.Context.Safe.{IsSafe, is_unsafe-IsSafe}
use thunder_sandbox.Prelude.{
  or_cases, text_eq, text_eq→eq, codes, kept_or_not, ◌≡◌, sym, subst, ◌⊎◌, inl, inr, Bool, true,
  false, ◌&&◌, not, List, ◌∷◌, Text, Bool-cases,
}
use thunder_sandbox.Common.Errors.{ok≢err, ok-injective, Yields, Yields-ok, Yields-err, Yields-bind}
use thunder_sandbox.Image.Ignore.{DockerIgnore, excludes}
use thunder_sandbox.Image.Context.{
  Node, is_unsafe, is_kept, is_seen, Inspected, normalized_relative_path, is_link, meet, inspect,
}

module _ (nfc : Text → Text) (is_artifacts : Text → Bool) (ignore : DockerIgnore) where
  -- a name that the context may have
  pub record Allowed (path name : Text) : Type 0 where
    pub named_by : name ≡ nfc path
    pub safe : IsSafe name
    pub wanted :
        ((name ≡ codes "Dockerfile") ⊎ (name ≡ codes ".dockerignore"))
        ⊎ (excludes ignore name ≡ false)

  wanted_if :
      (name : Text)
      → (is_kept name ≡ true) ⊎ (excludes ignore name ≡ false)
      → ((name ≡ codes "Dockerfile") ⊎ (name ≡ codes ".dockerignore"))
        ⊎ (excludes ignore name ≡ false)
  wanted_if name (inr x) = inr x
  wanted_if name (inl k) = elim (or_cases (text_eq name (codes "Dockerfile")) _ k) [
    | inl e ↦ inl (inl (text_eq→eq _ _ e))
    | inr e ↦ inl (inr (text_eq→eq _ _ e))
  ]

  pub data Found (path : Text) (seen : List Text) : Inspected → Type 0 where
    skipped : (name : Text) → Found path seen (record { taken = false; name = name; seen = seen })
    met :
        (name : Text)
        → Allowed path name
        → is_seen name seen ≡ false
        → Found path seen (record { taken = true; name = name; seen = name ∷ seen })

  meet-Found :
      (path : Text) (node : Node) (seen : List Text) (name : Text)
      → name ≡ nfc path
      → is_unsafe name ≡ false
      → Yields (Found path seen) (meet nfc is_artifacts ignore name node seen)
  meet-Found path node seen name e s =
      elim (Bool-cases (not (is_kept name) && excludes ignore name)) [
        | inl q ↦ rw q (Yields-ok _ (Found.skipped name))
        | inr q ↦ elim (Bool-cases (is_seen name seen)) [
          | inl p ↦ rw (q, p) (Yields-err _)
          | inr p ↦ elim (Bool-cases (is_link node)) [
            | inl l ↦ rw (q, p, l) (Yields-err _)
            | inr l ↦
                rw (q, p, l)
                  (Yields-ok _ (
                    Found.met name
                      (record {
                        named_by = e;
                        safe = is_unsafe-IsSafe name s;
                        wanted = wanted_if name (kept_or_not _ _ q);
                      })
                      p))
          ]
        ]
      ]

  pub inspect-Found :
      (path : Text) (node : Node) (seen : List Text)
      → Yields (Found path seen) (inspect nfc is_artifacts ignore path node seen)
  unfolding inspect normalized_relative_path
  inspect-Found path node seen = elim (Bool-cases (is_unsafe (nfc path))) [
    | inl q ↦ rw q (Yields-bind _ _ (λ name e. absurd (ok≢err e)))
    | inr q ↦ rw q (
        Yields-bind _ _ (λ name e.
          let n = sym (ok-injective e) in
          meet-Found path node seen name n (subst (λ z. is_unsafe z ≡ false) (sym n) q)))
  ]
