-- ===== src/Image/Definition/Registry.antt =====
-- What images from a registry are (thunder_sandbox/image.py).
use thunder_sandbox.Prelude.{
  or_false, and_true, false_of_not, ℕ, ◌≤◌, ◌≡◌, refl, ap, ◌∙◌, subst, inl, inr, true, false, not,
  Option, none, some, [], ◌∷◌, Text, text_eq→eq, any, is_empty, leb→le, Option-cases,
}
use thunder_sandbox.Common.Errors.{
  ok, guard-eq-ok, Yields, Yields-ok, Yields-err, Yields-bind, ok≢err,
}
use thunder_sandbox.Common.Whitespace.{is_space, strip, strip_left, strip_right}
use thunder_sandbox.Create.Options.{Argument, proper, improper}
use thunder_sandbox.Image.Definition.{
  Image, registry, validate_display_name, validate_credentials, utf8_size, size_at_most,
  is_single_line, from_registry,
}

strip_right-none : (t : Text) → any is_space t ≡ false → strip_right t ≡ t
strip_right-none [] h = refl
strip_right-none (c ∷ cs) h =
    let (e, g) = or_false (is_space c) (any is_space cs) h in
    rw (strip_right, e) (ap (λ r. c ∷ r) (strip_right-none cs g))

strip_left-none : (t : Text) → any is_space t ≡ false → strip_left t ≡ t
strip_left-none [] h = refl
strip_left-none (c ∷ cs) h =
    let (e, g) = or_false (is_space c) (any is_space cs) h in rw (strip_left, e) refl

strip-none : (t : Text) → any is_space t ≡ false → strip t ≡ t
strip-none t h = ap strip_left (strip_right-none t h) ∙ strip_left-none t h

-- no credentials, or a name and a password that are not empty
pub data Credentials : Option Text → Option Text → Type 0 where
  absent : Credentials none none
  given : (u p : Text) → is_empty u ≡ false → is_empty p ≡ false → Credentials (some u) (some p)

validate_credentials-Credentials :
    (u p : Option Text) (v : Unit {0}) → validate_credentials u p ≡ ok v → Credentials u p
validate_credentials-Credentials none none v = λ e. Credentials.absent
validate_credentials-Credentials (some u) none v = λ e. absurd (ok≢err e)
validate_credentials-Credentials none (some p) v = λ e. absurd (ok≢err e)
validate_credentials-Credentials (some u) (some p) v = λ e.
    let (a, b) = and_true (not (is_empty u)) (not (is_empty p)) (guard-eq-ok _ _ e) in
    Credentials.given u p (false_of_not _ a) (false_of_not _ b)

-- a name that is trimmed, is one line, and takes 128 bytes at most; or none
pub data Displayed : Option Text → Type 0 where
  unnamed : Displayed none
  named :
      (t : Text) (n : ℕ)
      → t ≡ strip t
      → utf8_size t ≡ some n
      → n ≤ 128
      → is_single_line t ≡ true
      → Displayed (some t)

size_at_most-Within :
    (k : ℕ) (t : Text) (v : Unit {0})
    → size_at_most k t ≡ ok v
    → (n : ℕ) × (utf8_size t ≡ some n) × (n ≤ k)
size_at_most-Within k t v = elim (Option-cases (utf8_size t)) [
  | inl q ↦ rw (size_at_most, q) (λ e. absurd (ok≢err e))
  | inr (n, q) ↦ rw (size_at_most, q) (λ e. (n, refl, leb→le n k (guard-eq-ok _ _ e)))
]

pub validate_display_name-Displayed :
    (d : Option (Argument Text)) → Yields Displayed (validate_display_name d)
unfolding validate_display_name
validate_display_name-Displayed none = Yields-ok _ Displayed.unnamed
validate_display_name-Displayed (some improper) = Yields-err _
validate_display_name-Displayed (some (proper t)) = Yields-bind _ _ (λ a e. Yields-bind _ _ (λ b g.
    Yields-bind _ _ (λ c h.
      let (n, q, l) = size_at_most-Within 128 t b g in
      Yields-ok _
        (Displayed.named t n (text_eq→eq _ _ (guard-eq-ok _ _ e)) q l (guard-eq-ok _ _ h)))))

pub record Registered (url : Text) (u p : Option Text) (i : Image) : Type 0 where
  pub source_kept : i.source ≡ registry
  pub url_kept : i.registry_url ≡ some url
  pub url_filled : is_empty url ≡ false
  pub no_space : any is_space url ≡ false
  pub username_kept : i.registry_username ≡ u
  pub password_kept : i.registry_password ≡ p
  pub credentials : Credentials u p
  pub displayed : Displayed i.display_name

-- An image that `from_registry` makes has the URL and the credentials as they were given; the URL is
-- not empty and has no white space, the credentials are missing or both given and not empty, and the
-- display name, if there is one, is trimmed, is one line, and takes 128 bytes at most.
pub from_registry-Registered :
    (url : Text) (u p : Option Text) (d : Option (Argument Text))
    → Yields (Registered url u p) (from_registry (proper url) u p d)
unfolding from_registry
from_registry-Registered url u p d = Yields-bind _ _ (λ a e. Yields-bind _ _ (λ b g.
    Yields-bind _ _ (λ c h. Yields-bind _ _ (λ n q.
      let free = false_of_not _ (guard-eq-ok _ _ g) in
      let same = strip-none url free in
      Yields-ok _ (record {
        source_kept = refl;
        url_kept = ap some same;
        url_filled = subst (λ z. is_empty z ≡ false) same (false_of_not _ (guard-eq-ok _ _ e));
        no_space = free;
        username_kept = refl;
        password_kept = refl;
        credentials = validate_credentials-Credentials u p c h;
        displayed = (validate_display_name-Displayed d).at n q;
      })))))
