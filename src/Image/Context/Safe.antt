-- ===== src/Image/Context/Safe.antt =====
-- Which names of a build context are safe (thunder_sandbox/image.py).
use thunder_sandbox.Prelude.{
  ℕ, ◌≡◌, ◌≢◌, refl, sym, ap, ◌∙◌, subst, Bool-cases, inl, inr, false, true≢false, or_false, List,
  [], ◌∷◌, ◌++◌, Text, codes, text_eq, is_empty, has_char, ◌==◌, ==→eq, All, unequal, any,
}
use thunder_sandbox.Image.Context.{first_part, split_slashes, is_unsafe_part, is_unsafe}

-- parts with slashes between them
abbrev pub joined : List Text → Text
joined [] = []
joined (p ∷ []) = p
joined (p ∷ q ∷ qs) = p ++ (47 ∷ joined (q ∷ qs))

-- a part that stands for a name right in its folder
pub record IsSafePart (p : Text) : Type 0 where
  pub filled : p ≢ []
  pub not_here : p ≢ codes "."
  pub not_above : p ≢ codes ".."
  pub whole : has_char 47 p ≡ false

-- a path of such parts, of which there is one at least
pub data IsSafe : Text → Type 0 where
  of_parts : (p : Text) (ps : List Text) → All IsSafePart (p ∷ ps) → IsSafe (joined (p ∷ ps))

joined-slash : (p : Text) (ps : List Text) → joined ([] ∷ p ∷ ps) ≡ 47 ∷ joined (p ∷ ps)
joined-slash p ps = refl

-- The parts of a text that is split at its slashes: they have none, and make up the text.
pub record Parts (t : Text) (ps : List Text) : Type 0 where
  pub head : Text
  pub tail : List Text
  pub same : ps ≡ head ∷ tail
  pub whole : All (λ p. has_char 47 p ≡ false) ps
  pub text : joined ps ≡ t

after_slash : (t : Text) (ps : List Text) → Parts t ps → Parts (47 ∷ t) ([] ∷ ps)
after_slash t ps r = record {
  head = [];
  tail = ps;
  same = refl;
  whole = (refl, r.whole);
  text =
      subst (λ x. joined ([] ∷ x) ≡ 47 ∷ t) (sym r.same)
        (ap (λ z. 47 ∷ z) (subst (λ x. joined x ≡ t) r.same r.text));
}

joined-longer : (c : ℕ) (p : Text) (ps : List Text) → joined ((c ∷ p) ∷ ps) ≡ c ∷ joined (p ∷ ps)
joined-longer c p [] = refl
joined-longer c p (q ∷ qs) = refl

longer :
    (c : ℕ) (t : Text) (p : Text) (ps : List Text)
    → (c == 47) ≡ false
    → All (λ x. has_char 47 x ≡ false) (p ∷ ps)
    → joined (p ∷ ps) ≡ t
    → Parts (c ∷ t) ((c ∷ p) ∷ ps)
longer c t p ps n w e = record {
  head = c ∷ p;
  tail = ps;
  same = refl;
  whole = (rw n w.0, w.1);
  text = joined-longer c p ps ∙ ap (λ z. c ∷ z) e;
}

after_char :
    (c : ℕ) (t : Text) (ps : List Text)
    → (c == 47) ≡ false
    → Parts t ps
    → Parts (c ∷ t) (first_part (c ∷ []) ps)
after_char c t [] n r = absurd (cons r.same)
  where
    cons : [] ≡ r.head ∷ r.tail → ⊥
    cons e = cc
after_char c t (p ∷ ps) n r = longer c t p ps n r.whole r.text

split_slashes-Parts : (t : Text) → Parts t (split_slashes t)
split_slashes-Parts [] = record {
  head = [];
  tail = [];
  same = refl;
  whole = (refl, tt);
  text = refl;
}
split_slashes-Parts (c ∷ cs) = elim (Bool-cases (c == 47)) [
  | inl q ↦ rw q (
      subst (λ x. Parts (x ∷ cs) ([] ∷ split_slashes cs)) (sym (==→eq c 47 q))
        (after_slash cs (split_slashes cs) (split_slashes-Parts cs)))
  | inr q ↦ rw q (after_char c cs (split_slashes cs) q (split_slashes-Parts cs))
]

safe_part : (p : Text) → is_unsafe_part p ≡ false → has_char 47 p ≡ false → IsSafePart p
safe_part p h w =
    let a = or_false (is_empty p) _ h in
    let b = or_false (text_eq p (codes ".")) _ a.1 in
    record {
      filled = λ e. true≢false (sym (ap is_empty e) ∙ a.0);
      not_here = unequal _ _ b.0;
      not_above = unequal _ _ b.1;
      whole = w;
    }

safe_parts :
    (ps : List Text)
    → any is_unsafe_part ps ≡ false
    → All (λ p. has_char 47 p ≡ false) ps
    → All IsSafePart ps
safe_parts [] h w = tt
safe_parts (p ∷ ps) h w =
    let a = or_false (is_unsafe_part p) _ h in (safe_part p a.0 w.0, safe_parts ps a.1 w.1)

parts-IsSafe : (t : Text) (ps : List Text) → Parts t ps → All IsSafePart ps → IsSafe t
parts-IsSafe t ps r s =
    subst IsSafe (sym (ap joined r.same) ∙ r.text)
      (IsSafe.of_parts r.head r.tail (subst (All IsSafePart) r.same s))

pub is_unsafe-IsSafe : (t : Text) → is_unsafe t ≡ false → IsSafe t
is_unsafe-IsSafe t h =
    let r = split_slashes-Parts t in
    parts-IsSafe t (split_slashes t) r (safe_parts (split_slashes t) h r.whole)
