-- ===== src/Policy/Update/Enforced.antt =====
-- What the end of a policy update says (thunder_sandbox/asynchronous/sandbox.py).
use thunder_sandbox.Prelude.{
  Option, codes, text_eq, text_eq→eq, true≢false, sym, ap, ◌∙◌, ℕ, ◌+◌, ◌≡◌, refl, ◌⊎◌, inl, inr,
  true, false, none, some, List, [], ◌∷◌, Text, Bool-cases,
}
use thunder_sandbox.Common.Errors.{
  ThunderError, Error, ErrorKind, thunder_error, plain, Result, ok, err,
}
use thunder_sandbox.Common.Task.{Ran, done, threw, waiting}
use thunder_sandbox.Policy.Update.{
  Poll, Accepted, no_policy, accepted, is_pending, Patched, reply, gave_up, still, patch,
  after_accepted, after_patched, update_policy,
}
use thunder_sandbox.Policy.Update.Waiting.{Explained, wait_for_policy-Explained}

-- the exception of a request that meets another update
abbrev pub Pending : Error → Type 0
Pending e =
    (t : ThunderError) × (e ≡ thunder_error t)
    × (t.kind ≡ ErrorKind.conflict)
    × (t.code ≡ some (codes "sandbox_update_conflict"))

-- the reply to the request that was not told to wait for another update
abbrev pub Answered : Accepted → List (Result Accepted) → Type 0
Answered a [] = ⊥
Answered a (r ∷ rs) = (r ≡ ok a) ⊎ ((e : Error) × (r ≡ err e) × Pending e × Answered a rs)

abbrev pub Refused : Error → List (Result Accepted) → Type 0
Refused e [] = ⊥
Refused e (r ∷ rs) =
    ((r ≡ err e) × (Pending e → ⊥)) ⊎ ((f : Error) × (r ≡ err f) × Pending f × Refused e rs)

abbrev pub Patches : List (Result Accepted) → Patched → Type 0
Patches rs (reply a n) = Answered a rs
Patches rs (gave_up e n) = Refused e rs
Patches rs still = Unit

conflict_code :
    (t : ThunderError) (o : Option Text)
    → t.kind ≡ ErrorKind.conflict
    → t.code ≡ o
    → is_pending (thunder_error t) ≡ true
    → Pending (thunder_error t)
conflict_code t none k e = rw (is_pending, k, e) (λ h. absurd (true≢false (sym h)))
conflict_code t (some c) k e =
    let same : is_pending (thunder_error t) ≡ true
        → text_eq c (codes "sandbox_update_conflict") ≡ true =
      rw (is_pending, k, e) (λ h. h) in
    λ h. (t, refl, k, e ∙ ap some (text_eq→eq c _ (same h)))

of_kind :
    (t : ThunderError) (k : ErrorKind)
    → t.kind ≡ k
    → is_pending (thunder_error t) ≡ true
    → Pending (thunder_error t)
of_kind t ErrorKind.conflict e = conflict_code t t.code e refl
of_kind t k e = rw (is_pending, e) (λ h. absurd (true≢false (sym h)))

is_pending-Pending : (e : Error) → is_pending e ≡ true → Pending e
is_pending-Pending (thunder_error t) = of_kind t t.kind refl
is_pending-Pending e = λ h. absurd (true≢false (sym h))

not-Pending : (e : Error) → is_pending e ≡ false → Pending e → ⊥
not-Pending e h (t, q, k, c) =
    let pending : is_pending (thunder_error t) ≡ true = rw (is_pending, k, c) refl in
    true≢false (sym pending ∙ (sym (ap is_pending q) ∙ h))

Patches-later :
    (e : Error) (rs : List (Result Accepted)) (x : Patched)
    → Pending e
    → Patches rs x
    → Patches (err e ∷ rs) x
Patches-later e rs (reply a n) h k = inr (e, refl, h, k)
Patches-later e rs (gave_up f n) h k = inr (e, refl, h, k)
Patches-later e rs still h k = tt

patch-Patches : (rs : List (Result Accepted)) (n : ℕ) → Patches rs (patch rs n)
unfolding patch
patch-Patches [] n = tt
patch-Patches (ok a ∷ rs) n = inl refl
patch-Patches (err e ∷ rs) n =
    let ih = patch-Patches rs (n + 1) in
    elim (Bool-cases (is_pending e)) [
      | inl u ↦ rw u (Patches-later e rs (patch rs (n + 1)) (is_pending-Pending e u) ih)
      | inr u ↦ rw u (inl (refl, not-Pending e u))
    ]

-- what follows the acceptance
abbrev pub Followed : Text → List Poll → Accepted → Ran (Unit {0}) → Type 0
Followed id qs no_policy x = x ≡ threw (thunder_error (plain ErrorKind.sandbox_failed))
Followed id qs (accepted p (err e)) x = x ≡ threw e
Followed id qs (accepted p (ok none)) x = x ≡ done tt
Followed id qs (accepted p (ok (some g))) x = Explained id p g none qs x

-- a request is refused, or one is accepted, all before it having met a pending update
pub data Updated (id : Text) (rs : List (Result Accepted)) (qs : List Poll) (x : Ran (Unit {0}))
    : Type 0 where
  turned_down : (e : Error) → Refused e rs → x ≡ threw e → Updated id rs qs x
  went_on : (a : Accepted) → Answered a rs → Followed id qs a x → Updated id rs qs x
  undecided : x ≡ waiting → Updated id rs qs x

accepted-Followed :
    (id : Text) (qs : List Poll) (a : Accepted) → Followed id qs a (after_accepted id a qs)
accepted-Followed id qs no_policy = refl
accepted-Followed id qs (accepted p (err e)) = refl
accepted-Followed id qs (accepted p (ok none)) = refl
accepted-Followed id qs (accepted p (ok (some g))) = wait_for_policy-Explained id p g qs none

patched-Updated :
    (id : Text) (rs : List (Result Accepted)) (qs : List Poll) (x : Patched)
    → Patches rs x
    → Updated id rs qs (after_patched id x qs)
patched-Updated id rs qs (reply a n) h = went_on a h (accepted-Followed id qs a)
patched-Updated id rs qs (gave_up e n) h = turned_down e h refl
patched-Updated id rs qs still h = undecided refl

-- The request to update the policy is sent again only while another update is pending. Once it is
-- accepted with a generation, the update returns only if some read showed this sandbox ready, with
-- that generation both desired and enforced and with the accepted policy; it raises only if a read
-- shows that this will not come about (it is about another sandbox, cannot be decoded, shows the
-- sandbox ended or a later generation, or shows this one enforced with another policy), if a request
-- fails with no transient fault, or if requests have failed without a break for the grace period.
-- Without a generation it returns at once.
pub update_policy-Updated :
    (id : Text) (rs : List (Result Accepted)) (qs : List Poll)
    → Updated id rs qs (update_policy id rs qs)
unfolding update_policy
update_policy-Updated id rs qs = patched-Updated id rs qs (patch rs 0) (patch-Patches rs 0)
