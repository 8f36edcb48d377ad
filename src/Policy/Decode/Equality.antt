-- ===== src/Policy/Decode/Equality.antt =====
-- That `==` of two policies is equality (thunder_sandbox/_common/types.py).
use thunder_sandbox.Prelude.{
  ◌≡◌, ◌≢◌, refl, sym, ap, ◌∙◌, true, false, List, [], ◌∷◌, Text, text_eq, text_eq→eq, text_eq_refl,
  and_true, true≢false,
}
use thunder_sandbox.Policy.Decode.{NetworkPolicy, lists_eq, policy_eq}

lists_eq→eq : (xs ys : List Text) → lists_eq xs ys ≡ true → xs ≡ ys
lists_eq→eq [] [] h = refl
lists_eq→eq [] (y ∷ ys) h = absurd (true≢false (sym h))
lists_eq→eq (x ∷ xs) [] h = absurd (true≢false (sym h))
lists_eq→eq (x ∷ xs) (y ∷ ys) h =
    let a = and_true (text_eq x y) _ h in
    ap (λ z. z ∷ xs) (text_eq→eq x y a.0) ∙ ap (λ zs. y ∷ zs) (lists_eq→eq xs ys a.1)

lists_eq_refl : (xs : List Text) → lists_eq xs xs ≡ true
lists_eq_refl [] = refl
lists_eq_refl (x ∷ xs) = rw (text_eq_refl x, lists_eq_refl xs) refl

pub policy_eq→eq : (p q : NetworkPolicy) → policy_eq p q ≡ true → p ≡ q
policy_eq→eq p q h =
    let a = and_true (text_eq p.internet_access q.internet_access) _ h in
    let b = and_true (lists_eq p.cidrs q.cidrs) _ a.1 in
    ap (λ x. record p { internet_access = x }) (text_eq→eq _ _ a.0)
    ∙ (ap (λ x. record p { internet_access = q.internet_access; cidrs = x }) (lists_eq→eq _ _ b.0)
        ∙ ap (λ x. record q { domains = x }) (lists_eq→eq _ _ b.1))

policy_eq_refl : (p : NetworkPolicy) → policy_eq p p ≡ true
policy_eq_refl p =
    rw (text_eq_refl p.internet_access, lists_eq_refl p.cidrs, lists_eq_refl p.domains) refl

pub policy_unequal : (p q : NetworkPolicy) → policy_eq p q ≡ false → p ≢ q
policy_unequal p q h e = true≢false (sym (policy_eq_refl p) ∙ (ap (policy_eq p) e ∙ h))
