-- ===== src/Policy/Update/Waiting.antt =====
-- What the end of the waiting for a policy says (thunder_sandbox/asynchronous/sandbox.py).
use thunder_sandbox.Prelude.{
  ℕ, ◌-◌, ◌≤◌, ◌≡◌, refl, sym, ap, subst, ◌∙◌, ◌⊎◌, inl, inr, true, Option, none, some, List, [],
  ◌∷◌, Text, text_eq, text_eq→eq, arith, Bool-cases,
}
use thunder_sandbox.Common.Errors.{
  Error, ErrorKind, ThunderError, thunder_error, plain, Result, ok, err,
}
use thunder_sandbox.Common.Task.{Ran, done, threw, waiting}
use thunder_sandbox.Lifecycle.Poll.{transient, or_now}
use thunder_sandbox.Policy.Decode.{NetworkPolicy, policy_eq}
use thunder_sandbox.Policy.Decode.Equality.{policy_eq→eq}
use thunder_sandbox.Lifecycle.Poll.Transience.{IsTransient, none-IsTransient}
use thunder_sandbox.Lifecycle.Box.{ready}
use thunder_sandbox.Policy.Update.{
  View, Reply, Poll, Verdict, enforced_now, not_yet, refuses, is_generation, is_ready, judge,
  judge_info, judge_reply, tolerated, after_fault, after_verdict, after_poll, wait_for_policy,
}
use thunder_sandbox.Policy.Update.Verdicts.{Refuses, is_ready-eq, is_generation-eq, reply-Refuses}

-- a view of this sandbox that shows the accepted policy enforced
pub record Shows (id : Text) (p : NetworkPolicy) (g : ℕ) (r : Reply) : Type 0 where
  pub view : View
  pub own : r.id ≡ id
  pub decoded : r.info ≡ ok view
  pub desired : view.desired ≡ some g
  pub enforced : view.enforced ≡ some g
  pub running : view.status ≡ ready
  pub same : view.policy ≡ p

judge_enforced :
    (p : NetworkPolicy) (g : ℕ) (v : View)
    → judge p g v ≡ enforced_now
    → (is_generation g v.desired ≡ true)
      × (is_generation g v.enforced ≡ true)
      × (is_ready v.status ≡ true)
      × (policy_eq v.policy p ≡ true)
unfolding judge
judge_enforced p g v h = (ground arith, ground arith, ground arith, ground arith)

module _ (id : Text) (p : NetworkPolicy) (g : ℕ) where
  info-Shows :
      (r : Reply) (i : Result View)
      → r.info ≡ i
      → r.id ≡ id
      → judge_info p g i ≡ enforced_now
      → Shows id p g r
  info-Shows r (err e) h o f = absurd (cc)
  info-Shows r (ok v) h o f =
      let (d, n, s, q) = judge_enforced p g v f in
      record {
        view = v;
        own = o;
        decoded = h;
        desired = is_generation-eq g v.desired d;
        enforced = is_generation-eq g v.enforced n;
        running = is_ready-eq v.status s;
        same = policy_eq→eq v.policy p q;
      }

  reply-Shows : (r : Reply) → judge_reply id p g r ≡ enforced_now → Shows id p g r
  unfolding judge_reply
  reply-Shows r h = elim (Bool-cases (text_eq r.id id)) [
    | inl o ↦ info-Shows r r.info refl (text_eq→eq r.id id o) (rw o at h)
    | inr o ↦ absurd (wrong (rw o at h))
  ]
    where
      wrong : refuses (thunder_error (plain ErrorKind.connection)) ≡ enforced_now → ⊥
      wrong e = cc

  -- some read shows it
  abbrev pub Confirmed : List Poll → Type 0
  Confirmed [] = ⊥
  Confirmed (q ∷ qs) = ((r : Reply) × (q.reply ≡ ok r) × Shows id p g r) ⊎ Confirmed qs

  -- some read that refuses raises `e`
  abbrev pub Contradicted : Error → List Poll → Type 0
  Contradicted e [] = ⊥
  Contradicted e (q ∷ qs) =
      ((r : Reply) × (q.reply ≡ ok r) × Refuses id p g r e) ⊎ Contradicted e qs

  -- since when reads have failed without a break, after one more
  abbrev pub failing_after : Option ℕ → Result Reply → ℕ → Option ℕ
  failing_after failing (ok r) now = none
  failing_after failing (err e) now = some (or_now failing now)

  -- some request fails with `e`, which is no transient fault, or requests have failed without a break
  -- for the grace period
  abbrev pub Failed : Error → Option ℕ → List Poll → Type 0
  Failed e failing [] = ⊥
  Failed e failing (q ∷ qs) =
      ((q.reply ≡ err e) × ((IsTransient e → ⊥) ⊎ (30000 ≤ q.arrives - or_now failing q.arrives)))
      ⊎ Failed e (failing_after failing q.reply q.arrives) qs

  abbrev pub Explained : Option ℕ → List Poll → Ran (Unit {0}) → Type 0
  Explained failing qs (done u) = Confirmed qs
  Explained failing qs (threw e) = Contradicted e qs ⊎ Failed e failing qs
  Explained failing qs waiting = Unit

  later :
      (q : Poll) (qs : List Poll) (failing : Option ℕ) (x : Ran (Unit {0}))
      → Explained (failing_after failing q.reply q.arrives) qs x
      → Explained failing (q ∷ qs) x
  later q qs failing (done u) h = inr h
  later q qs failing (threw e) (inl h) = inl (inr h)
  later q qs failing (threw e) (inr h) = inr (inr h)
  later q qs failing waiting h = tt

  module _ (q : Poll) (qs : List Poll) (failing : Option ℕ) (k : Option ℕ → Ran (Unit {0}))
      (rest : (o : Option ℕ) → Explained o qs (k o)) where
    verdict-Explained :
        (r : Reply) (v : Verdict)
        → q.reply ≡ ok r
        → judge_reply id p g r ≡ v
        → Explained failing (q ∷ qs) (after_verdict v k)
    verdict-Explained r enforced_now h e = inl (r, h, reply-Shows r e)
    verdict-Explained r not_yet h e = later q qs failing (k none) (
        subst (λ o. Explained o qs (k none)) (sym (ap (λ x. failing_after failing x q.arrives) h))
          (rest none))
    verdict-Explained r (refuses x) h e = inl (inl (r, h, reply-Refuses id p g r x e))

    fault-Explained :
        (e : Error) (o : Option Error)
        → q.reply ≡ err e
        → ((x : Error)
            → o ≡ some x
            → (x ≡ e) × ((IsTransient e → ⊥) ⊎ (30000 ≤ q.arrives - or_now failing q.arrives)))
        → Explained failing (q ∷ qs) (after_fault failing q.arrives o k)
    fault-Explained e (some x) h f =
        let (s, w) = f x refl in
        inr (
          inl (
            h ∙ ap err (sym s),
            subst (λ y. (IsTransient y → ⊥) ⊎ (30000 ≤ q.arrives - or_now failing q.arrives))
                (sym s) w,
          ))
    fault-Explained e none h f = later q qs failing (k (some (or_now failing q.arrives))) (
        subst (λ o. Explained o qs (k (some (or_now failing q.arrives))))
          (sym (ap (λ x. failing_after failing x q.arrives) h))
          (rest (some (or_now failing q.arrives))))

    tolerated_why :
        (e : Error) (t : Option ThunderError) (x : Error)
        → transient e ≡ t
        → tolerated e t failing q.arrives ≡ some x
        → (x ≡ e) × ((IsTransient e → ⊥) ⊎ (30000 ≤ q.arrives - or_now failing q.arrives))
    tolerated_why e none x h s = (cc, inl (none-IsTransient e h))
    tolerated_why e (some t) x h s = (ground arith, inr (ground arith))

    poll-Explained :
        (r : Result Reply)
        → q.reply ≡ r
        → Explained failing (q ∷ qs) (after_poll id p g failing r q.arrives k)
    poll-Explained (ok r) h = verdict-Explained r (judge_reply id p g r) h refl
    poll-Explained (err e) h =
        fault-Explained e (tolerated e (transient e) failing q.arrives) h
          λ x s. tolerated_why e (transient e) x refl s

  pub wait_for_policy-Explained :
      (qs : List Poll) (failing : Option ℕ)
      → Explained failing qs (wait_for_policy id p g qs failing)
  unfolding wait_for_policy
  wait_for_policy-Explained [] failing = tt
  wait_for_policy-Explained (q ∷ qs) failing =
      let ih = wait_for_policy-Explained qs in
      poll-Explained q qs failing (wait_for_policy id p g qs) ih q.reply refl
