-- ===== src/Image/Ignore/Fuel.antt =====
-- That a pattern of a `.dockerignore` is read to its end (thunder_sandbox/image.py).
use thunder_sandbox.Prelude.{
  ℕ, zero, suc, ◌≤◌, arith, ◌≡◌, refl, ap, subst, inl, inr, Option, none, some, [], ◌∷◌, ◌++◌, Text,
  length, Bool-cases, Option-cases, ◌==◌,
}
use thunder_sandbox.Image.Ignore.{
  behind, star, split_bracket, bracket, backslash, piece, expression_of,
}

-- what is left, if anything, is no longer than the text
abbrev Within : Option Text → Text → Type 0
Within none t = Unit
Within (some r) t = length r ≤ length t

behind-Within : (k : ℕ) (t : Text) → Within (behind k t) t
behind-Within k [] = tt
behind-Within k (c ∷ cs) = elim (Bool-cases (c == k)) [
  | inl q ↦ rw q (omega arith)
  | inr q ↦ rw q tt
]

star-length : (cs : Text) → length (star cs).1 ≤ length cs
star-length cs = elim (Option-cases (behind 42 cs)) [
  | inl q ↦ rw (star, q) (omega arith)
  | inr (ds, q) ↦
      let h = subst (λ o. Within o cs) q (behind-Within 42 cs) in
      elim (Option-cases (behind 47 ds)) [
        | inl p ↦ rw (star, q, p) h
        | inr (es, p) ↦
            let g = subst (λ o. Within o ds) p (behind-Within 47 ds) in
            rw (star, q, p) (omega arith)
      ]
]

-- the same of the text behind a bracket
abbrev WithinPair : Option (Text × Text) → Text → Type 0
WithinPair none t = Unit
WithinPair (some (a, r)) t = length r ≤ length t

wider :
    (c : ℕ) (cs : Text) (o : Option (Text × Text))
    → WithinPair o cs
    → WithinPair (elim o [ none ↦ none | some (a, b) ↦ some (c ∷ a, b) ]) (c ∷ cs)
wider c cs none h = tt
wider c cs (some (a, b)) h = omega arith

split_bracket-Within : (t : Text) → WithinPair (split_bracket t) t
split_bracket-Within [] = tt
split_bracket-Within (c ∷ cs) = elim (Bool-cases (c == 93)) [
  | inl q ↦ rw q (omega arith)
  | inr q ↦ rw q (wider c cs (split_bracket cs) (split_bracket-Within cs))
]

bracket-length : (cs : Text) → length (bracket cs).1 ≤ length cs
bracket-length cs = elim (Option-cases (split_bracket cs)) [
  | inl q ↦ rw (bracket, q) (omega arith)
  | inr (p, q) ↦ rw (bracket, q) (subst (λ o. WithinPair o cs) q (split_bracket-Within cs))
]

module _ (escape : ℕ → Text) where
  backslash-length : (cs : Text) → length (backslash escape cs).1 ≤ length cs
  backslash-length [] = omega arith
  backslash-length (c ∷ cs) = omega arith

  -- each round reads a character
  piece-length : (c : ℕ) (cs : Text) → length (piece escape c cs).1 ≤ length cs
  piece-length c cs = elim (Bool-cases (c == 42)) [
    | inl q ↦ rw q (star-length cs)
    | inr q ↦ elim (Bool-cases (c == 63)) [
      | inl p ↦ rw (q, p) (omega arith)
      | inr p ↦ elim (Bool-cases (c == 91)) [
        | inl r ↦ rw (q, p, r) (bracket-length cs)
        | inr r ↦ elim (Bool-cases (c == 92)) [
          | inl s ↦ rw (q, p, r, s) (backslash-length cs)
          | inr s ↦ rw (q, p, r, s) (omega arith)
        ]
      ]
    ]
  ]

  -- The loop has the fuel that it needs if it has as much as the pattern has characters: more of it
  -- changes nothing.
  pub expression_of-enough :
      (n m : ℕ) (t : Text)
      → length t ≤ n
      → length t ≤ m
      → expression_of escape n t ≡ expression_of escape m t
  unfolding expression_of
  expression_of-enough zero zero t h g = refl
  expression_of-enough zero (suc m) [] h g = refl
  expression_of-enough (suc n) zero [] h g = refl
  expression_of-enough (suc n) (suc m) [] h g = refl
  expression_of-enough zero (suc m) (c ∷ cs) h g = absurd (omega arith)
  expression_of-enough (suc n) zero (c ∷ cs) h g = absurd (omega arith)
  expression_of-enough (suc n) (suc m) (c ∷ cs) h g =
      let l = piece-length c cs in
      ap (λ r. (piece escape c cs).0 ++ r)
        (expression_of-enough n m (piece escape c cs).1 (omega arith) (omega arith))
