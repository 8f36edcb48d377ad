-- ===== src/Transfer/Path/Parsed.antt =====
-- What `parse_transfer_path` takes a path for (thunder_sandbox/asynchronous/_transfer.py).
use thunder_sandbox.Prelude.{
  empty→nil, ℕ, ◌≡◌, ◌≢◌, ◌⊎◌, inl, inr, sym, ap, ◌∙◌, true≢false, true, false, ◌||◌, none, [], ◌∷◌,
  ◌++◌, append_assoc, append-nil, Text, codes, has_char, is_empty, Bool-cases, Option-cases,
  or_false, or_cases,
}
use thunder_sandbox.Common.Whitespace.{rstrip}
use thunder_sandbox.Transfer.Path.{
  ParsedTransferPath, drop_dot, ends_with_char, last_part, or_root, parse_transfer_path,
}
use thunder_sandbox.Transfer.Path.Parts.{
  IsFolder, Separators, drop_dot-some, drop_dot-append, ends_with_char-some, ends_with_char-append,
  rstrip-split, rstrip-clear, last_part-clear, last_part-split, no_folder,
}

-- what a path stands for
pub data Parsed (s : ℕ) (path : Text) : ParsedTransferPath → Type 0 where
  -- the contents of the folder `p`
  contents :
      (p : Text)
      → path ≡ p ++ (s ∷ 46 ∷ [])
      → p ≢ []
      → ((u : Text) → p ≢ u ++ codes ":")
      → Parsed s path (record { path = p; contents_only = true; name = codes "contents" })
  -- the contents of the root, here or of a drive or sandbox
  root :
      (p : Text)
      → path ≡ p ++ (s ∷ 46 ∷ [])
      → (p ≡ []) ⊎ ((u : Text) × (p ≡ u ++ codes ":"))
      → Parsed s path
          (record { path = p ++ (s ∷ []); contents_only = true; name = codes "contents" })
  -- the node of this name in the folder `f`
  node :
      (f name separators : Text)
      → ((p : Text) → path ≢ p ++ (s ∷ 46 ∷ []))
      → path ≡ f ++ (name ++ separators)
      → IsFolder s f
      → has_char s name ≡ false
      → Separators s separators
      → (name ≡ [] → f ≡ [])
      → Parsed s path (record { path = path; contents_only = false; name = name })

or_root-Parsed :
    (s : ℕ) (path p : Text)
    → path ≡ p ++ (s ∷ 46 ∷ [])
    → Parsed s path (record { path = or_root s p; contents_only = true; name = codes "contents" })
or_root-Parsed s path p e = elim (Bool-cases (is_empty p || ends_with_char 58 p)) [
  | inl q ↦
      rw (or_root, q)
        (Parsed.root p e (elim (or_cases _ _ q) [
          | inl n ↦ inl (empty→nil p n)
          | inr n ↦ inr (ends_with_char-some 58 p n)
        ]))
  | inr q ↦
      let n = or_false _ _ q in
      rw (or_root, q)
        (Parsed.contents p e (λ z. true≢false (sym (ap is_empty z) ∙ n.0))
          (λ u z.
            true≢false (sym (ends_with_char-append 58 u) ∙ (sym (ap (ends_with_char 58) z) ∙ n.1))))
]

node-Parsed :
    (s : ℕ) (path : Text)
    → drop_dot s path ≡ none
    → Parsed s path
        (record { path = path; contents_only = false; name = last_part s (rstrip s path) })
node-Parsed s path n =
    let (z, (e, hz)) = rstrip-split s path in
    let (f, (g, h)) = last_part-split s (rstrip s path) in
    Parsed.node f (last_part s (rstrip s path)) z
      (λ p q. let a = drop_dot-append s p in let b = ap (drop_dot s) q in cc)
      (e ∙ (ap (λ x. x ++ z) g ∙ append_assoc f _ z)) h (last_part-clear s (rstrip s path)) hz
      (λ q.
        no_folder s f (rstrip s path) (g ∙ (ap (λ x. f ++ x) q ∙ append-nil f))
          (rstrip-clear s path) h)

-- A path is parsed as `scp` reads it. One that ends with the separator and a dot means the contents of
-- the folder before these, or of the root if nothing stands there, or a colon. Any other means itself,
-- and its name is the last part that is not empty, or is empty if there are only separators.
pub parse_transfer_path-Parsed : (s : ℕ) (path : Text) → Parsed s path (parse_transfer_path s path)
unfolding parse_transfer_path
parse_transfer_path-Parsed s path = elim (Option-cases (drop_dot s path)) [
  | inl n ↦ rw (parse_transfer_path, n) (node-Parsed s path n)
  | inr (p, e) ↦ rw (parse_transfer_path, e) (or_root-Parsed s path p (drop_dot-some s path p e))
]
