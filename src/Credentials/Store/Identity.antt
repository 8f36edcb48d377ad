-- ===== src/Credentials/Store/Identity.antt =====
-- A machine keeps one key (thunder_sandbox/asynchronous/credentials.py).
use thunder_sandbox.Prelude.{
  ℕ, ◌+◌, ◌==◌, ◌&&◌, not, ◌≡◌, refl, inl, inr, Bool, true, false, Option, none, some, List, [],
  ◌∷◌, All, arith, Bool-cases,
}
use thunder_sandbox.Common.Errors.{Result, ok, err}
use thunder_sandbox.Credentials.Cache.{
  Credential, File, is_usable, Disk, load, load_certificate, Writes, save,
}
use thunder_sandbox.Credentials.Store.{
  Store, Line, empty, unusable, certified, Reply, Answers, certify, receive, mint, counted, loaded,
  from_cache, or_else, ensure_locked, ensure, replacement, remint, replaced, renew_locked, renew,
}
use thunder_sandbox.Credentials.Store.Calls.{Call, ensures, renews, answers, perform, perform_all}

abbrev pub HasKey : ℕ → Option Credential → Type 0
HasKey k none = Unit
HasKey k (some c) = c.key ≡ k

-- The key's file holds `k`, and so does the credential in memory.
pub record IsOne (k : ℕ) (s : Store) : Type 0 where
  pub cached : s.disk.key_file ≡ some k
  pub current : HasKey k s.current

abbrev pub YieldsKey : ℕ → Result Credential → Type 0
YieldsKey k (ok c) = c.key ≡ k
YieldsKey k (err e) = Unit

abbrev Good : ℕ → Result Credential × Store → Type 0
Good k x = YieldsKey k x.0 × IsOne k x.1

-- the other tasks and the other processes leave the key alone
pub record LeavesKey (k : ℕ) (a : Answers) : Type 0 where
  pub tasks : (s : Store) → IsOne k s → IsOne k (a.waited s)
  pub processes : (d : Disk) → d.key_file ≡ some k → (a.others d).key_file ≡ some k

save_key :
    (now : ℕ) (w : Writes) (k' c e : ℕ) (replace : Bool) (d : Disk) {k : ℕ}
    → d.key_file ≡ some k
    → (save now w k' c e false replace d).key_file ≡ some k
unfolding save
save_key now w k' c e replace d h = ground arith

certificate_key : (o k : ℕ) (f g : File) → (load_certificate o k f g).key ≡ k
certificate_key o k none g = refl
certificate_key o k (some c) none = refl
certificate_key o k (some c) (some e) = refl

-- there is a credential, with this key
abbrev Keyed : ℕ → Option Credential → Type 0
Keyed k none = ⊥
Keyed k (some c) = c.key ≡ k

load-Keyed : (o k : ℕ) (d : Disk) → d.key_file ≡ some k → Keyed k (load o d)
unfolding load
load-Keyed o k d h = rw h (certificate_key o k d.certificate_file d.meta_file)

certify-Good :
    (a : Answers) (k : ℕ) (c : Credential) (replace : Bool) (l : Line) (e : ℕ) (s : Store)
    → c.key ≡ k
    → IsOne k s
    → Good k (certify a (some c) replace l e s)
certify-Good a k c replace empty e s h g = (tt, g)
certify-Good a k c replace unusable e s h g = (tt, g)
certify-Good a k c replace (certified n) e s h g = (
  h,
  record { cached = save_key a.then_now a.writes c.key n e replace s.disk g.cached; current = h },
)

receive-Good :
    (a : Answers) (k : ℕ) (c : Credential) (replace : Bool) (q : Result Reply) (s : Store)
    → c.key ≡ k
    → IsOne k s
    → Good k (receive a (some c) replace q s)
receive-Good a k c replace (err e) s h g = (tt, g)
receive-Good a k c replace (ok p) s h g = certify-Good a k c replace p.line _ s h g

mint-Good :
    (a : Answers) (k : ℕ) (c : Credential) (replace : Bool) (s : Store)
    → LeavesKey k a
    → c.key ≡ k
    → IsOne k s
    → Good k (mint a (some c) replace s)
unfolding mint
mint-Good a k c replace s v h g =
    receive-Good a k c replace a.reply _ h
      (record { cached = v.processes s.disk g.cached; current = g.current })

module _ (a : Answers) (k : ℕ) (v : LeavesKey k a) where
  cache-Good :
      (o : Option Credential) (s : Store)
      → Keyed k o
      → IsOne k s
      → Good k (from_cache a (counted o s))
  cache-Good none s h g = absurd h
  cache-Good (some c) s h g = elim (Bool-cases (is_usable a.now c)) [
    | inl u ↦ rw u (h, record { cached = g.cached; current = h })
    | inr u ↦ rw u (
        mint-Good a k c false (record s { made = s.made + 1 }) v h
          (record { cached = g.cached; current = g.current }))
  ]

  or_else-Good :
      (now : ℕ) (o : Option Credential) (s : Store) (f : Store → Result Credential × Store)
      → HasKey k o
      → IsOne k s
      → Good k (f s)
      → Good k (or_else now o s f)
  or_else-Good now none s f h g i = i
  or_else-Good now (some c) s f h g i = elim (Bool-cases (is_usable now c)) [
    | inl u ↦ rw u (h, g)
    | inr u ↦ rw u i
  ]

  locked-Good : (s : Store) → IsOne k s → Good k (ensure_locked a s)
  unfolding ensure_locked
  locked-Good s g =
      or_else-Good a.now s.current s (λ t. from_cache a (loaded t)) g.current g
        (cache-Good (load s.made s.disk) s (load-Keyed s.made k s.disk g.cached) g)

  ensure-Good : (s : Store) → IsOne k s → Good k (ensure a s)
  unfolding ensure
  ensure-Good s g =
      or_else-Good a.asked_at s.current s (λ t. ensure_locked a (a.waited t)) g.current g
        (locked-Good (a.waited s) (v.tasks s g))

  remint-Good :
      (o : Option Credential) (s : Store) → Keyed k o → IsOne k s → Good k (remint a (counted o s))
  remint-Good none s h g = absurd h
  remint-Good (some c) s h g =
      mint-Good a k c true (record s { made = s.made + 1 }) v h
        (record { cached = g.cached; current = g.current })

  replacement-HasKey :
      (now : ℕ) (r o : Option Credential) → HasKey k o → HasKey k (replacement now r o)
  unfolding replacement
  replacement-HasKey now none o h = tt
  replacement-HasKey now (some r) none h = tt
  replacement-HasKey now (some r) (some c) h =
      elim (Bool-cases (not (c.object == r.object) && is_usable now c)) [
        | inl u ↦ rw u h
        | inr u ↦ rw u tt
      ]

  chosen-Good :
      (o : Option Credential) (s : Store) → HasKey k o → IsOne k s → Good k (replaced o a s)
  chosen-Good none s h g =
      remint-Good (load s.made s.disk) s (load-Keyed s.made k s.disk g.cached) g
  chosen-Good (some c) s h g = (h, g)

  renew-Good : (r : Option Credential) (s : Store) → IsOne k s → Good k (renew a r s)
  unfolding renew renew_locked
  renew-Good r s g =
      let i = v.tasks s g in
      chosen-Good (replacement a.now r (a.waited s).current) (a.waited s)
        (replacement-HasKey a.now r (a.waited s).current i.current) i

perform-Good :
    (k : ℕ) (c : Call) (s : Store) → LeavesKey k (answers c) → IsOne k s → Good k (perform c s)
unfolding perform
perform-Good k (ensures a) s v g = ensure-Good a k v s g
perform-Good k (renews a r) s v g = renew-Good a k v r s g

-- Once a key can be read from the cache, and the credential in memory, if there is one, has that key,
-- all stays so whatever is called and whatever the API answers, also where writes fail, as long as
-- other tasks and processes leave the key alone; and each credential that is returned has that key.
pub perform_all-IsOne :
    (k : ℕ) (cs : List Call) (s : Store)
    → All (λ c. LeavesKey k (answers c)) cs
    → IsOne k s
    → All (YieldsKey k) (perform_all cs s).0 × IsOne k (perform_all cs s).1
unfolding perform_all
perform_all-IsOne k [] s v g = (tt, g)
perform_all-IsOne k (c ∷ cs) s v g =
    let h = perform-Good k c s v.0 g in
    let i = perform_all-IsOne k cs (perform c s).1 v.1 h.1 in ((h.0, i.0), i.1)
