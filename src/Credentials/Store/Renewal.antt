-- ===== src/Credentials/Store/Renewal.antt =====
-- Renewals of a credential that a sandbox has refused (thunder_sandbox/asynchronous/credentials.py).
use thunder_sandbox.Prelude.{
  ℕ, ◌+◌, ◌<◌, ◌≤◌, ◌≡◌, ◌≢◌, refl, ap, ◌∙◌, Bool, true, Option, none, some, arith,
}
use thunder_sandbox.Common.Errors.{Result, ok, err}
use thunder_sandbox.Credentials.Cache.{Credential, is_usable, load, expiry}
use thunder_sandbox.Credentials.Store.{
  Store, Line, empty, unusable, certified, Reply, Answers, certify, receive, mint, counted, loaded,
  replacement, remint, replaced, renew_locked, renew,
}

-- a credential that is returned is held, and is none that was made before
abbrev IsNew : ℕ → Result Credential × Store → Type 0
IsNew n (ok c, t) = (t.current ≡ some c) × (n ≤ c.object)
IsNew n (err e, t) = Unit

certify-IsNew :
    (a : Answers) (reuse : Option Credential) (replace : Bool) (l : Line) (e : ℕ) (s : Store)
    (n : ℕ)
    → n ≤ s.made
    → IsNew n (certify a reuse replace l e s)
certify-IsNew a reuse replace empty e s n h = tt
certify-IsNew a reuse replace unusable e s n h = tt
certify-IsNew a reuse replace (certified c) e s n h = (refl, h)

receive-IsNew :
    (a : Answers) (reuse : Option Credential) (replace : Bool) (q : Result Reply) (s : Store)
    (n : ℕ)
    → n ≤ s.made
    → IsNew n (receive a reuse replace q s)
receive-IsNew a reuse replace (err e) s n h = tt
receive-IsNew a reuse replace (ok p) s n h =
    certify-IsNew a reuse replace p.line (expiry p.expires_at) s n h

mint-IsNew :
    (a : Answers) (reuse : Option Credential) (replace : Bool) (s : Store) (n : ℕ)
    → n ≤ s.made
    → IsNew n (mint a reuse replace s)
unfolding mint
mint-IsNew a reuse replace s n h = receive-IsNew a reuse replace a.reply _ n h

remint-IsNew :
    (a : Answers) (o : Option Credential) (s : Store) → IsNew s.made (remint a (counted o s))
remint-IsNew a none s = mint-IsNew a none true s s.made (omega arith)
remint-IsNew a (some c) s =
    mint-IsNew a (some c) true (record s { made = s.made + 1 }) s.made (omega arith)

-- the replacement is the credential in memory, and another than the refused one
replacement_inv :
    (now : ℕ) (r : Credential) (o : Option Credential) (c : Credential)
    → replacement now (some r) o ≡ some c
    → (o ≡ some c) × (c.object ≢ r.object) × (is_usable now c ≡ true)
unfolding replacement
replacement_inv now r none c h = absurd (cc)
replacement_inv now r (some d) c h = (ground arith, λ e. ground arith, ground arith)

-- what a renewal of `r` returns is held, and is another credential than `r`
abbrev Renews : Credential → Result Credential × Store → Type 0
Renews r (ok c, t) = (t.current ≡ some c) × (c.object ≢ r.object)
Renews r (err e, t) = Unit

new-Renews :
    (r : Credential) (n : ℕ) (x : Result Credential × Store) → r.object < n → IsNew n x → Renews r x
new-Renews r n (ok c, t) h i = (i.0, ground (arith, i.1))
new-Renews r n (err e, t) h i = tt

chosen-Renews :
    (a : Answers) (r : Credential) (w : Store) (o : Option Credential)
    → r.object < w.made
    → replacement a.now (some r) w.current ≡ o
    → Renews r (replaced o a w)
chosen-Renews a r w none h e =
    new-Renews r w.made (remint a (loaded w)) h (remint-IsNew a (load w.made w.disk) w)
chosen-Renews a r w (some c) h e = let i = replacement_inv a.now r w.current c e in (i.0, i.1)

renew-Renews :
    (a : Answers) (r : Credential) (s : Store)
    → r.object < (a.waited s).made
    → Renews r (renew a (some r) s)
unfolding renew renew_locked
renew-Renews a r s h = chosen-Renews a r (a.waited s) _ h refl

returned :
    (r c : Credential) (x : Result Credential × Store)
    → Renews r x
    → x.0 ≡ ok c
    → (x.1.current ≡ some c) × (c.object ≢ r.object)
returned r c (ok d, t) h e = (cc (h.0, e), λ i. h.1 (cc (e, i)))
returned r c (err x, t) h e = absurd (cc)

replacement_of :
    (now : ℕ) (r c : Credential)
    → c.object ≢ r.object
    → is_usable now c ≡ true
    → replacement now (some r) (some c) ≡ some c
unfolding replacement
replacement_of now r c n u = ground arith

again :
    (b : Answers) (r c : Credential) (t : Store)
    → (b.waited t).current ≡ some c
    → c.object ≢ r.object
    → is_usable b.now c ≡ true
    → renew b (some r) t ≡ (ok c, b.waited t)
unfolding renew renew_locked
again b r c t w n u =
    ap (λ o. replaced o b (b.waited t))
      (ap (replacement b.now (some r)) w ∙ replacement_of b.now r c n u)

-- If a renewal of a refused credential that was made before returns a credential, this is another
-- one. While that is held and usable, whoever asks for a renewal of the refused one gets it, too, and
-- nothing changes: the API is not asked again.
pub renew_once :
    (a b : Answers) (r c : Credential) (s : Store)
    → r.object < (a.waited s).made
    → (renew a (some r) s).0 ≡ ok c
    → (b.waited (renew a (some r) s).1).current ≡ (renew a (some r) s).1.current
    → is_usable b.now c ≡ true
    → (c.object ≢ r.object)
      × (renew b (some r) (renew a (some r) s).1 ≡ (ok c, b.waited (renew a (some r) s).1))
renew_once a b r c s h e w u =
    let i = returned r c (renew a (some r) s) (renew-Renews a r s h) e in
    (i.1, again b r c (renew a (some r) s).1 (w ∙ i.0) i.1 u)
