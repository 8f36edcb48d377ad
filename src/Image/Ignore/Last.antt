-- ===== src/Image/Ignore/Last.antt =====
-- The rule of a `.dockerignore` that decides about a path (thunder_sandbox/image.py).
use thunder_sandbox.Prelude.{
  ◌≡◌, refl, inl, inr, Bool, true, false, not, Option, none, some, List, [], ◌∷◌, ◌++◌, Text, All,
  Bool-cases,
}
use thunder_sandbox.Image.Ignore.{IgnoreRule, DockerIgnore, excludes_from, excludes}

-- the last rule that matches a path, or that none does
pub data Decides (path : Text) : List IgnoreRule → Option IgnoreRule → Type 0 where
  none_matches :
      (rs : List IgnoreRule) → All (λ r. r.matches path ≡ false) rs → Decides path rs none
  last_match :
      (before after : List IgnoreRule) (r : IgnoreRule)
      → r.matches path ≡ true
      → All (λ s. s.matches path ≡ false) after
      → Decides path (before ++ r ∷ after) (some r)

-- what a deciding rule says
abbrev pub says : Bool → Option IgnoreRule → Bool
says excluded none = excluded
says excluded (some r) = not r.negated

passed :
    (path : Text) (b : Bool) (rs : List IgnoreRule)
    → All (λ s. s.matches path ≡ false) rs
    → excludes_from b rs path ≡ b
unfolding excludes_from
passed path b [] h = refl
passed path b (r ∷ rs) (e, h) = rw e (passed path b rs h)

after_match :
    (path : Text) (r : IgnoreRule) (after : List IgnoreRule)
    → r.matches path ≡ true
    → All (λ s. s.matches path ≡ false) after
    → (before : List IgnoreRule) (b : Bool)
    → excludes_from b (before ++ r ∷ after) path ≡ not r.negated
unfolding excludes_from
after_match path r after m h [] b = rw (excludes_from, m) (passed path (not r.negated) after h)
after_match path r after m h (s ∷ before) b = after_match path r after m h before _

excludes_from-says :
    (path : Text) (b : Bool) (rs : List IgnoreRule) (o : Option IgnoreRule)
    → Decides path rs o
    → excludes_from b rs path ≡ says b o
excludes_from-says path b _ _ (Decides.none_matches rs h) = passed path b rs h
excludes_from-says path b _ _ (Decides.last_match before after r m h) =
    after_match path r after m h before b

before_rule :
    (path : Text) (r : IgnoreRule) (rs : List IgnoreRule) (o : Option IgnoreRule)
    → Decides path rs o
    → (p : Option IgnoreRule) × Decides path (r ∷ rs) p
before_rule path r _ _ (Decides.none_matches rs h) = elim (Bool-cases (r.matches path)) [
  | inl m ↦ (some r, Decides.last_match [] rs r m h)
  | inr m ↦ (none, Decides.none_matches (r ∷ rs) (m, h))
]
before_rule path r _ _ (Decides.last_match before after s m h) =
    (some s, Decides.last_match (r ∷ before) after s m h)

decided : (path : Text) (rs : List IgnoreRule) → (o : Option IgnoreRule) × Decides path rs o
decided path [] = (none, Decides.none_matches [] tt)
decided path (r ∷ rs) = let d = decided path rs in before_rule path r rs d.0 d.1

-- A path is excluded exactly as the last rule that matches it says, and is not if none does.
pub excludes-Decides :
    (d : DockerIgnore) (path : Text)
    → (o : Option IgnoreRule) × Decides path d.rules o × (excludes d path ≡ says false o)
unfolding excludes
excludes-Decides d path =
    let c = decided path d.rules in (c.0, c.1, excludes_from-says path false d.rules c.0 c.1)
