-- ===== src/Credentials/Store/Ends.antt =====
-- What a call of `ensure` comes to (thunder_sandbox/asynchronous/credentials.py).
use thunder_sandbox.Prelude.{
  ℕ, ◌+◌, ◌≡◌, refl, sym, ap, subst, ◌∙◌, inl, inr, Bool, true, false, Option, none, some,
  Bool-cases,
}
use thunder_sandbox.Common.Errors.{Error, Result, ok, err}
use thunder_sandbox.Credentials.Cache.{Credential, is_usable, usable, load, expiry}
use thunder_sandbox.Credentials.Store.{
  Store, Line, empty, unusable, certified, Reply, Answers, chosen_key, counted, certify, receive,
  mint, loaded, from_cache, or_else, ensure_locked, ensure,
}

-- what the request for a certificate comes to, asked for by a store `w` with the key of `reuse`
pub data Delivered (a : Answers) (w : Store) (reuse : Option Credential)
    (x : Result Credential × Store) : Type 0 where
  got :
      (c : Credential) (n : ℕ) (p : Reply)
      → x.0 ≡ ok c
      → x.1.current ≡ some c
      → a.reply ≡ ok p
      → p.line ≡ certified n
      → c.key ≡ chosen_key reuse a.generated
      → c.certificate ≡ some n
      → c.expires_at ≡ expiry p.expires_at
      → Delivered a w reuse x
  refused :
      (e : Error)
      → x.0 ≡ err e
      → x.1.current ≡ w.current
      → x.1.disk ≡ a.others w.disk
      → Delivered a w reuse x

module _ (a : Answers) (w s : Store) (reuse : Option Credential) (replace : Bool) where
  by_line :
      (p : Reply) (l : Line)
      → a.reply ≡ ok p
      → p.line ≡ l
      → s.current ≡ w.current
      → s.disk ≡ a.others w.disk
      → Delivered a w reuse (certify a reuse replace l (expiry p.expires_at) s)
  by_line p empty h l c d = refused _ refl c d
  by_line p unusable h l c d = refused _ refl c d
  by_line p (certified n) h l c d = got _ n p refl refl h l refl refl refl

  received :
      (q : Result Reply)
      → a.reply ≡ q
      → s.current ≡ w.current
      → s.disk ≡ a.others w.disk
      → Delivered a w reuse (receive a reuse replace q s)
  received (err e) h c d = refused _ refl c d
  received (ok p) h c d = by_line p p.line h refl c d

pub mint-Delivered :
    (a : Answers) (w s : Store) (reuse : Option Credential) (replace : Bool)
    → s.current ≡ w.current
    → s.disk ≡ w.disk
    → Delivered a w reuse (mint a reuse replace s)
unfolding mint
mint-Delivered a w s reuse replace c d = received a w _ reuse replace a.reply refl c (ap a.others d)

certify_requests :
    (a : Answers) (reuse : Option Credential) (replace : Bool) (l : Line) (e : ℕ) (s : Store)
    → (certify a reuse replace l e s).1.requests ≡ s.requests
certify_requests a reuse replace empty e s = refl
certify_requests a reuse replace unusable e s = refl
certify_requests a reuse replace (certified n) e s = refl

receive_requests :
    (a : Answers) (reuse : Option Credential) (replace : Bool) (q : Result Reply) (s : Store)
    → (receive a reuse replace q s).1.requests ≡ s.requests
receive_requests a reuse replace (err e) s = refl
receive_requests a reuse replace (ok p) s = certify_requests a reuse replace p.line _ s

pub mint_requests :
    (a : Answers) (reuse : Option Credential) (replace : Bool) (s : Store)
    → (mint a reuse replace s).1.requests ≡ s.requests + 1
unfolding mint
mint_requests a reuse replace s = receive_requests a reuse replace a.reply _

-- how `ensure` comes to its credential; `w` is the store when the lock is taken
pub data Ensured (a : Answers) (s w : Store) (x : Result Credential × Store) : Type 0 where
  at_once :
      (c : Credential)
      → s.current ≡ some c
      → is_usable a.asked_at c ≡ true
      → x ≡ (ok c, s)
      → Ensured a s w x
  in_memory :
      (c : Credential)
      → w.current ≡ some c
      → is_usable a.now c ≡ true
      → x ≡ (ok c, w)
      → Ensured a s w x
  in_cache :
      (c : Credential)
      → usable a.now w.current ≡ false
      → load w.made w.disk ≡ some c
      → is_usable a.now c ≡ true
      → x.0 ≡ ok c
      → x.1.current ≡ some c
      → x.1.disk ≡ w.disk
      → x.1.requests ≡ w.requests
      → Ensured a s w x
  requested :
      usable a.now w.current ≡ false
      → usable a.now (load w.made w.disk) ≡ false
      → x.1.requests ≡ w.requests + 1
      → Delivered a w (load w.made w.disk) x
      → Ensured a s w x

module _ (a : Answers) (s w : Store) (idle : usable a.now w.current ≡ false) where
  asked-Ensured :
      (o : Option Credential) (t : Store)
      → load w.made w.disk ≡ o
      → usable a.now o ≡ false
      → t.current ≡ w.current
      → t.disk ≡ w.disk
      → t.requests ≡ w.requests
      → Ensured a s w (mint a o false t)
  asked-Ensured o t h u c d r =
      requested idle (rw h u) (mint_requests a o false t ∙ ap (λ n. n + 1) r)
        (subst (λ l. Delivered a w l (mint a o false t)) (sym h) (mint-Delivered a w t o false c d))

  cache-Ensured :
      (o : Option Credential) → load w.made w.disk ≡ o → Ensured a s w (from_cache a (counted o w))
  cache-Ensured none h = asked-Ensured none w h refl refl refl refl
  cache-Ensured (some c) h = elim (Bool-cases (is_usable a.now c)) [
    | inl u ↦ rw u (in_cache c idle h u refl refl refl refl)
    | inr u ↦ rw u (asked-Ensured (some c) (record w { made = w.made + 1 }) h u refl refl refl)
  ]

locked-Ensured :
    (a : Answers) (s w : Store) (o : Option Credential)
    → w.current ≡ o
    → Ensured a s w (or_else a.now o w (λ t. from_cache a (loaded t)))
locked-Ensured a s w none h = cache-Ensured a s w (rw h) (load w.made w.disk) refl
locked-Ensured a s w (some c) h = elim (Bool-cases (is_usable a.now c)) [
  | inl u ↦ rw u (in_memory c h u refl)
  | inr u ↦ rw u (cache-Ensured a s w (rw h u) (load w.made w.disk) refl)
]

fast-Ensured :
    (a : Answers) (s : Store) (o : Option Credential)
    → s.current ≡ o
    → Ensured a s (a.waited s) (or_else a.asked_at o s (λ t. ensure_locked a (a.waited t)))
unfolding ensure_locked
fast-Ensured a s none h = locked-Ensured a s (a.waited s) (a.waited s).current refl
fast-Ensured a s (some c) h = elim (Bool-cases (is_usable a.asked_at c)) [
  | inl u ↦ rw u (at_once c h u refl)
  | inr u ↦ rw u (locked-Ensured a s (a.waited s) (a.waited s).current refl)
]

-- `ensure` returns a usable credential that it holds, before or after it waits for the lock; or else
-- the one in the cache, if that is usable, which it then holds; or else it asks the API for exactly
-- one certificate. What comes of that is the key of the cache, or a new one if none can be read, with
-- the certificate and the expiry of the reply, which it then holds; or an exception, after which it
-- holds what it held and has written nothing.
pub ensure-Ensured : (a : Answers) (s : Store) → Ensured a s (a.waited s) (ensure a s)
unfolding ensure
ensure-Ensured a s = fast-Ensured a s s.current refl
