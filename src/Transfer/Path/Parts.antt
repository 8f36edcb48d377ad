-- ===== src/Transfer/Path/Parts.antt =====
-- The suffix, the last character and the last part of a path (thunder_sandbox/asynchronous/_transfer.py).
use thunder_sandbox.Prelude.{
  ==→eq, left_false, empty→nil, ℕ, ◌≡◌, ◌⊎◌, inl, inr, refl, sym, ap, ◌∙◌, subst, arith, true≢false,
  true, false, ◌&&◌, Option, none, some, [], ◌∷◌, ◌++◌, Text, text_eq, text_eq_refl, text_eq→eq,
  has_char, is_empty, ◌==◌, Bool-cases, or_cases, and_true, All,
}
use thunder_sandbox.Common.Whitespace.{rstrip}
use thunder_sandbox.Transfer.Path.{prepend, drop_dot, ends_with_char, last_part}

-- nothing, or a text that ends with the separator
abbrev pub IsFolder : ℕ → Text → Type 0
IsFolder s t = (t ≡ []) ⊎ ((u : Text) × (t ≡ u ++ (s ∷ [])))

abbrev pub Separators : ℕ → Text → Type 0
Separators s = All (λ c. c ≡ s)

-- the suffix of a path

pub some-injective : {t p : Text} → some t ≡ some p → t ≡ p
some-injective e = cc

pub prepend-some :
    (c : ℕ) (o : Option Text) (p : Text)
    → prepend c o ≡ some p
    → (u : Text) × ((o ≡ some u) × (p ≡ c ∷ u))
prepend-some c none p = λ e. cc
prepend-some c (some t) p = λ e. (t, (refl, cc))

pub drop_dot-some : (s : ℕ) (t p : Text) → drop_dot s t ≡ some p → t ≡ p ++ (s ∷ 46 ∷ [])
drop_dot-some s [] p = λ e. cc
drop_dot-some s (c ∷ cs) p = elim (Bool-cases (text_eq (c ∷ cs) (s ∷ 46 ∷ []))) [
  | inl q ↦
      rw (drop_dot, q) (λ e. text_eq→eq _ _ q ∙ ap (λ u. u ++ (s ∷ 46 ∷ [])) (some-injective e))
  | inr q ↦
      rw (drop_dot, q)
        (λ e.
          let r = prepend-some c _ p e in
          ap (λ u. c ∷ u) (drop_dot-some s cs r.0 r.1.0) ∙ ap (λ u. u ++ (s ∷ 46 ∷ [])) (sym r.1.1))
]

pub too_long : (c s : ℕ) (p : Text) → text_eq (c ∷ (p ++ (s ∷ 46 ∷ []))) (s ∷ 46 ∷ []) ≡ false
too_long c s [] = ground arith
too_long c s (d ∷ []) = ground arith
too_long c s (d ∷ (e ∷ p)) = ground arith

pub drop_dot-append : (s : ℕ) (p : Text) → drop_dot s (p ++ (s ∷ 46 ∷ [])) ≡ some p
drop_dot-append s [] = rw (drop_dot, text_eq_refl (s ∷ 46 ∷ [])) refl
drop_dot-append s (c ∷ cs) = rw (drop_dot, too_long c s cs, drop_dot-append s cs) refl

-- the last character

pub ends_with_char-some :
    (k : ℕ) (p : Text) → ends_with_char k p ≡ true → (u : Text) × (p ≡ u ++ (k ∷ []))
ends_with_char-some k [] h = absurd (true≢false (sym h))
ends_with_char-some k (c ∷ []) h = ([], ap (λ d. d ∷ []) (==→eq c k h))
ends_with_char-some k (c ∷ (d ∷ t)) h =
    let r = ends_with_char-some k (d ∷ t) h in (c ∷ r.0, ap (λ u. c ∷ u) r.1)

pub ends_with_char-append : (k : ℕ) (u : Text) → ends_with_char k (u ++ (k ∷ [])) ≡ true
ends_with_char-append k [] = ground arith
ends_with_char-append k (c ∷ []) = ground arith
ends_with_char-append k (c ∷ (d ∷ t)) = ends_with_char-append k (d ∷ t)

-- the last part of a path

pub rstrip-split : (s : ℕ) (t : Text) → (z : Text) × ((t ≡ rstrip s t ++ z) × Separators s z)
rstrip-split s [] = ([], (refl, tt))
rstrip-split s (c ∷ cs) =
    let r = rstrip-split s cs in
    elim (Bool-cases (c == s && is_empty (rstrip s cs))) [
      | inl q ↦
          let b = and_true _ _ q in
          rw (rstrip, q)
            (
              c ∷ r.0,
              (
                ap (λ u. c ∷ u) (r.1.0 ∙ ap (λ u. u ++ r.0) (empty→nil _ b.1)),
                (==→eq c s b.0, r.1.1),
              ),
            )
      | inr q ↦ rw (rstrip, q) (r.0, (ap (λ u. c ∷ u) r.1.0, r.1.1))
    ]

pub rstrip-clear : (s : ℕ) (t : Text) → ends_with_char s (rstrip s t) ≡ false
rstrip-clear s [] = refl
rstrip-clear s (c ∷ cs) =
    let r = rstrip-clear s cs in
    elim (Bool-cases (c == s && is_empty (rstrip s cs))) [
      | inl q ↦ rw (rstrip, q) refl
      | inr q ↦ elim (Bool-cases (is_empty (rstrip s cs))) [
        | inl n ↦ rw (rstrip, q) (rw (ends_with_char, n) (left_false _ _ n q))
        | inr n ↦ rw (rstrip, q) (rw (ends_with_char, n) r)
      ]
    ]

pub last_part-clear : (s : ℕ) (t : Text) → has_char s (last_part s t) ≡ false
last_part-clear s [] = refl
last_part-clear s (c ∷ cs) = elim (Bool-cases (has_char s (c ∷ cs))) [
  | inl q ↦ rw (last_part, q) (last_part-clear s cs)
  | inr q ↦ rw (last_part, q) q
]

-- a folder with one character before it
pub cons-IsFolder :
    (s c : ℕ) (f part : Text)
    → has_char s (c ∷ (f ++ part)) ≡ true
    → has_char s part ≡ false
    → IsFolder s f
    → IsFolder s (c ∷ f)
cons-IsFolder s c f part q n (inl e) = elim (or_cases (c == s) _ q) [
  | inl d ↦ inr ([], ap (λ x. c ∷ x) e ∙ ap (λ x. x ∷ []) (==→eq c s d))
  | inr d ↦ absurd (true≢false (sym d ∙ (ap (λ x. has_char s (x ++ part)) e ∙ n)))
]
cons-IsFolder s c f part q n (inr (u, e)) = inr (c ∷ u, ap (λ x. c ∷ x) e)

pub last_part-split : (s : ℕ) (t : Text) → (f : Text) × ((t ≡ f ++ last_part s t) × IsFolder s f)
last_part-split s [] = ([], (refl, inl refl))
last_part-split s (c ∷ cs) =
    let (f, (e, h)) = last_part-split s cs in
    elim (Bool-cases (has_char s (c ∷ cs))) [
      | inl q ↦
          rw (last_part, q)
            (
              c ∷ f,
              (
                ap (λ x. c ∷ x) e,
                cons-IsFolder s c f (last_part s cs) (subst (λ x. has_char s (c ∷ x) ≡ true) e q)
                    (last_part-clear s cs) h,
              ),
            )
      | inr q ↦ rw (last_part, q) ([], (refl, inl refl))
    ]

pub no_folder : (s : ℕ) (f t : Text) → t ≡ f → ends_with_char s t ≡ false → IsFolder s f → f ≡ []
no_folder s f t e n (inl h) = h
no_folder s f t e n (inr (u, h)) =
    absurd
      (true≢false (sym (ends_with_char-append s u) ∙ (sym (ap (ends_with_char s) (e ∙ h)) ∙ n)))
