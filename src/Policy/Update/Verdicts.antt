-- ===== src/Policy/Update/Verdicts.antt =====
-- When a read shows that a policy will not be enforced (thunder_sandbox/asynchronous/sandbox.py).
use thunder_sandbox.Prelude.{
  ◌<◌, ◌≢◌, ◌&&◌, ◌||◌, and_true, or_cases, unequal, ==→eq, ltb→lt, ℕ, ◌≡◌, refl, ap, subst, ◌⊎◌,
  inl, inr, true, Option, none, some, Text, text_eq, Bool-cases,
}
use thunder_sandbox.Common.Errors.{Error, ErrorKind, thunder_error, plain, Result, ok, err}
use thunder_sandbox.Policy.Decode.{NetworkPolicy, policy_eq}
use thunder_sandbox.Policy.Decode.Equality.{policy_unequal}
use thunder_sandbox.Lifecycle.Box.{
  SandboxStatus, created, ready, finished, failed, unknown, is_final,
}
use thunder_sandbox.Policy.Update.{
  is_beyond, conflict, View, Reply, refuses, is_generation, is_ready, judge, judge_info,
  judge_reply,
}

-- Why a read shows that this will not come about, with the exception: it is about another sandbox, it
-- cannot be decoded, the sandbox has ended, a later generation is desired or enforced, or this one is
-- enforced on a sandbox that is ready, with another policy.
pub data Refuses (id : Text) (p : NetworkPolicy) (g : ℕ) (r : Reply) : Error → Type 0 where
  foreign : r.id ≢ id → Refuses id p g r (thunder_error (plain ErrorKind.connection))
  broken : (e : Error) → r.info ≡ err e → Refuses id p g r e
  ended :
      (v : View)
      → r.info ≡ ok v
      → (v.status ≡ finished) ⊎ (v.status ≡ failed)
      → Refuses id p g r (thunder_error (plain ErrorKind.sandbox_failed))
  overtaken :
      (v : View) (n : ℕ)
      → r.info ≡ ok v
      → (v.desired ≡ some n) ⊎ (v.enforced ≡ some n)
      → g < n
      → Refuses id p g r conflict
  different :
      (v : View)
      → r.info ≡ ok v
      → v.desired ≡ some g
      → v.enforced ≡ some g
      → v.status ≡ ready
      → v.policy ≢ p
      → Refuses id p g r conflict

is_final-cases : (s : SandboxStatus) → is_final s ≡ true → (s ≡ finished) ⊎ (s ≡ failed)
is_final-cases finished h = inl refl
is_final-cases failed h = inr refl
is_final-cases created h = absurd (cc)
is_final-cases ready h = absurd (cc)
is_final-cases unknown h = absurd (cc)

pub is_ready-eq : (s : SandboxStatus) → is_ready s ≡ true → s ≡ ready
is_ready-eq ready h = refl
is_ready-eq created h = absurd (cc)
is_ready-eq finished h = absurd (cc)
is_ready-eq failed h = absurd (cc)
is_ready-eq unknown h = absurd (cc)

pub is_generation-eq : (g : ℕ) (o : Option ℕ) → is_generation g o ≡ true → o ≡ some g
is_generation-eq g none h = absurd (cc)
is_generation-eq g (some n) h = ap some (==→eq n g h)

is_beyond-lt : (g : ℕ) (o : Option ℕ) → is_beyond g o ≡ true → (n : ℕ) × (o ≡ some n) × (g < n)
is_beyond-lt g none h = absurd (cc)
is_beyond-lt g (some n) h = (n, refl, ltb→lt g n h)

overtaken_by :
    (g : ℕ) (v : View)
    → (is_beyond g v.desired || is_beyond g v.enforced) ≡ true
    → (n : ℕ) × ((v.desired ≡ some n) ⊎ (v.enforced ≡ some n)) × (g < n)
overtaken_by g v h = elim (or_cases (is_beyond g v.desired) _ h) [
  | inl a ↦ let (n, e, l) = is_beyond-lt g v.desired a in (n, inl e, l)
  | inr b ↦ let (n, e, l) = is_beyond-lt g v.enforced b in (n, inr e, l)
]

refuses-injective : {e f : Error} → refuses e ≡ refuses f → e ≡ f
refuses-injective h = cc

matching :
    (g : ℕ) (v : View)
    → (is_generation g v.desired && (is_generation g v.enforced && is_ready v.status)) ≡ true
    → (v.desired ≡ some g) × (v.enforced ≡ some g) × (v.status ≡ ready)
matching g v h =
    let a = and_true (is_generation g v.desired) _ h in
    let b = and_true (is_generation g v.enforced) _ a.1 in
    (is_generation-eq g v.desired a.0, is_generation-eq g v.enforced b.0, is_ready-eq v.status b.1)

judge-Refuses :
    (id : Text) (p : NetworkPolicy) (g : ℕ) (r : Reply) (v : View) (e : Error)
    → r.info ≡ ok v
    → judge p g v ≡ refuses e
    → Refuses id p g r e
unfolding judge
judge-Refuses id p g r v e i = elim (Bool-cases (is_final v.status)) [
  | inl a ↦ rw a (λ h.
      subst (Refuses id p g r) (refuses-injective h)
        (Refuses.ended v i (is_final-cases v.status a)))
  | inr a ↦ elim (Bool-cases (is_beyond g v.desired || is_beyond g v.enforced)) [
    | inl b ↦ rw a (
        rw b (λ h.
          let (n, q, l) = overtaken_by g v b in
          subst (Refuses id p g r) (refuses-injective h) (Refuses.overtaken v n i q l)))
    | inr b ↦
        elim (Bool-cases
          (is_generation g v.desired && (is_generation g v.enforced && is_ready v.status))) [
            | inr c ↦ rw a (rw b (rw c (λ h. absurd (cc))))
            | inl c ↦ elim (Bool-cases (policy_eq v.policy p)) [
              | inl d ↦ rw a (rw b (rw c (rw d (λ h. absurd (cc)))))
              | inr d ↦ rw a (
                  rw b (
                    rw c (
                      rw d (λ h.
                        let (x, y, z) = matching g v c in
                        subst (Refuses id p g r) (refuses-injective h)
                          (Refuses.different v i x y z (policy_unequal v.policy p d))))))
            ]
          ]
  ]
]

info-Refuses :
    (id : Text) (p : NetworkPolicy) (g : ℕ) (r : Reply) (i : Result View) (e : Error)
    → r.info ≡ i
    → judge_info p g i ≡ refuses e
    → Refuses id p g r e
info-Refuses id p g r (err x) e i h =
    subst (Refuses id p g r) (refuses-injective h) (Refuses.broken x i)
info-Refuses id p g r (ok v) e i h = judge-Refuses id p g r v e i h

pub reply-Refuses :
    (id : Text) (p : NetworkPolicy) (g : ℕ) (r : Reply) (e : Error)
    → judge_reply id p g r ≡ refuses e
    → Refuses id p g r e
unfolding judge_reply
reply-Refuses id p g r e = elim (Bool-cases (text_eq r.id id)) [
  | inl o ↦ rw o (info-Refuses id p g r r.info e refl)
  | inr o ↦
      rw o (λ h. subst (Refuses id p g r) (refuses-injective h) (Refuses.foreign (unequal _ _ o)))
]
