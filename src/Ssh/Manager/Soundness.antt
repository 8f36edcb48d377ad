-- ===== src/Ssh/Manager/Soundness.antt =====
-- The manager never hands out a connection that it has closed.
use thunder_sandbox.Prelude.{
  ℕ, ◌+◌, ◌<◌, ◌≡◌, ◌≢◌, refl, ap, ◌⊎◌, sym, subst, Bool, true, false, Option, none, some, List, [],
  ◌∷◌, arith, All, Bool-cases, ◌==◌, inl, inr,
}
use thunder_sandbox.Ssh.Manager.{
  SshError, Manager, fresh, Reply, returned, raised, get, healthy, reuse_or_open, open_new, evict,
  discard, shut_cached, close,
}

abbrev pub NotCached : Option ℕ → ℕ → Type 0
NotCached none c = Unit
NotCached (some d) c = c ≢ d

abbrev pub Below : ℕ → Option ℕ → Type 0
Below n none = Unit
Below n (some c) = c < n

abbrev pub EmptyIf : Bool → Option ℕ → Type 0
EmptyIf true o = o ≡ none
EmptyIf false o = Unit

-- A closed connection was opened once and is not the cached one; a closed manager has none.
pub record IsSound (m : Manager) : Type 0 where
  pub shut_opened : All (λ c. c < m.opened) m.shut
  pub cached_opened : Below m.opened m.cached
  pub cached_open : All (NotCached m.cached) m.shut
  pub closed_empty : EmptyIf m.closed m.cached

pub fresh-IsSound : IsSound fresh
fresh-IsSound = record { shut_opened = tt; cached_opened = tt; cached_open = tt; closed_empty = tt }

below_next : (n : ℕ) (cs : List ℕ) → All (λ c. c < n) cs → All (λ c. c < n + 1) cs
below_next n [] h = tt
below_next n (c ∷ cs) h = (omega arith, below_next n cs h.1)

next_not_shut : (n : ℕ) (cs : List ℕ) → All (λ c. c < n) cs → All (NotCached (some n)) cs
next_not_shut n [] h = tt
next_not_shut n (c ∷ cs) h = (omega (arith, h.0), next_not_shut n cs h.1)

none_cached : (cs : List ℕ) → All (NotCached none) cs
none_cached [] = tt
none_cached (c ∷ cs) = (tt, none_cached cs)

open_new-IsSound :
    (refusal : Option SshError) (m : Manager)
    → IsSound m
    → m.closed ≡ false
    → IsSound (open_new refusal m).1
open_new-IsSound (some e) m h o = h
open_new-IsSound none m h o = record {
  shut_opened = below_next m.opened m.shut h.shut_opened;
  cached_opened = omega arith;
  cached_open = next_not_shut m.opened m.shut h.shut_opened;
  closed_empty = rw o tt;
}

-- what `get` may return: the cached connection of a sound, open manager
abbrev pub Handed : Reply ℕ × Manager → Type 0
Handed (returned c, m) = (m.cached ≡ some c) × (m.closed ≡ false)
Handed (raised e, m) = Unit

reuse_or_open-IsSound :
    (refusal : Option SshError) (o : Option ℕ) (m : Manager)
    → IsSound m
    → m.closed ≡ false
    → IsSound (reuse_or_open refusal o m).1
reuse_or_open-IsSound refusal none m h o = open_new-IsSound refusal m h o
reuse_or_open-IsSound refusal (some c) m h o = h

reuse_or_open-Handed :
    (is_closed : ℕ → Bool) (refusal : Option SshError) (m : Manager)
    → m.closed ≡ false
    → (o : Option ℕ) → o ≡ m.cached
    → Handed (reuse_or_open refusal (healthy is_closed o) m)
reuse_or_open-Handed is_closed none m h none e = (refl, h)
reuse_or_open-Handed is_closed (some x) m h none e = tt
reuse_or_open-Handed is_closed refusal m h (some c) e = elim (Bool-cases (is_closed c)) [
  | inl shut ↦ rw shut (opened refusal)
  | inr open_ ↦ rw open_ (sym e, h)
]
  where
    opened : (r : Option SshError) → Handed (open_new r m)
    opened none = (refl, h)
    opened (some x) = tt

-- Whatever the transport answers, `get` keeps the manager sound, and a connection that it returns
-- is the cached one of a manager that is not closed, so no connection that was closed is reused.
pub get-IsSound :
    (is_closed : ℕ → Bool) (refusal : Option SshError) (m : Manager)
    → IsSound m
    → IsSound (get is_closed refusal m).1 × Handed (get is_closed refusal m)
unfolding get
get-IsSound is_closed refusal m h = elim (Bool-cases m.closed) [
  | inl shut ↦ simp shut (h, tt)
  | inr open_ ↦ simp open_ (
    reuse_or_open-IsSound refusal (healthy is_closed m.cached) m h open_,
    reuse_or_open-Handed is_closed refusal m open_ m.cached refl,
  )
]

evict_open :
    (c : ℕ) (o : Option ℕ) (cs : List ℕ)
    → All (NotCached o) cs
    → All (NotCached (evict c o)) (c ∷ cs)
evict_open c none cs h = (tt, h)
evict_open c (some d) cs h = elim (Bool-cases (d == c)) [
  | inl e ↦
      let gone : evict c (some d) ≡ none = rw e in
      subst (λ o. All (NotCached o) (c ∷ cs)) (sym gone) (tt, none_cached cs)
  | inr e ↦
      let kept : evict c (some d) ≡ some d = rw e in
      let differs : c ≢ d = ground arith in
      subst (λ o. All (NotCached o) (c ∷ cs)) (sym kept) (differs, h)
]

evict-Below : (n c : ℕ) (o : Option ℕ) → Below n o → Below n (evict c o)
evict-Below n c none h = tt
evict-Below n c (some d) h = elim (Bool-cases (d == c)) [ inl e ↦ rw e tt | inr e ↦ rw e h ]

evict_empty : (b : Bool) (c : ℕ) (o : Option ℕ) → EmptyIf b o → EmptyIf b (evict c o)
evict_empty true c o h = rw h refl
evict_empty false c o h = tt

kept_or_named : (c : ℕ) (o : Option ℕ) → (evict c o ≡ o) ⊎ (o ≡ some c)
kept_or_named c none = inl refl
kept_or_named c (some d) = elim (Bool-cases (d == c)) [
  | inl e ↦ inr (ap some (ground arith))
  | inr e ↦ inl (rw e refl)
]

-- Discarding one of its connections keeps the manager sound, so the connection is closed and not
-- cached any more, and a newer connection that has replaced it stays cached.
pub discard-IsSound :
    (c : ℕ) (m : Manager)
    → c < m.opened
    → IsSound m
    → IsSound (discard c m)
      × (((discard c m).cached ≡ m.cached) ⊎ (m.cached ≡ some c))
      × ((discard c m).shut ≡ c ∷ m.shut)
unfolding discard
discard-IsSound c m b h = (
  record {
    shut_opened = (b, h.shut_opened);
    cached_opened = evict-Below m.opened c m.cached h.cached_opened;
    cached_open = evict_open c m.cached m.shut h.cached_open;
    closed_empty = evict_empty m.closed c m.cached h.closed_empty;
  },
  kept_or_named c m.cached,
  refl,
)

-- Closing keeps the manager sound and leaves it closed, so without a cached connection.
close-IsSound : (m : Manager) → IsSound m → IsSound (close m) × ((close m).closed ≡ true)
unfolding close
close-IsSound m h = elim (Bool-cases m.closed) [
  | inl e ↦ simp e (h, refl)
  | inr e ↦ simp e (
    record {
      shut_opened = closing m.cached h.cached_opened;
      cached_opened = tt;
      cached_open = none_cached (shut_cached m.cached m.shut);
      closed_empty = refl;
    },
    refl,
  )
]
  where
    closing : (o : Option ℕ) → Below m.opened o → All (λ c. c < m.opened) (shut_cached o m.shut)
    closing none b = h.shut_opened
    closing (some c) b = (b, h.shut_opened)
