-- ===== src/Credentials/Cache/Saved.antt =====
-- What the cache holds after `_save` (thunder_sandbox/asynchronous/credentials.py).
use thunder_sandbox.Prelude.{
  ℕ, ◌+◌, ◌<◌, ◌≡◌, refl, ◌⊎◌, inl, inr, Bool, true, false, Option, none, some, arith, Bool-cases,
}
use thunder_sandbox.Credentials.Cache.{
  Credential, is_usable, Disk, load, Writes, save, write, is_fresh,
}

abbrev pub AllWork : Writes → Type 0
AllWork w =
    (w.mkdir_fails ≡ false)
    × (w.key_fails ≡ false)
    × (w.chmod_fails ≡ false)
    × (w.certificate_fails ≡ false)
    × (w.meta_fails ≡ false)

-- the key that was written, or that was there
abbrev pub HoldsKey : Bool → ℕ → Disk → Type 0
HoldsKey replace_key k d = (replace_key ≡ true) ⊎ (d.key_file ≡ some k)

-- what a cache `d` has become by the saving of a credential
pub data Saved (now k c e : ℕ) (replace : Bool) (d d' : Disk) : Type 0 where
  kept :
      (p : Credential)
      → replace ≡ false
      → load 0 d ≡ some p
      → is_usable now p ≡ true
      → e < p.expires_at + 60000
      → d' ≡ d
      → Saved now k c e replace d d'
  written :
      ((o : ℕ)
        → load o d' ≡ some (record { object = o; key = k; certificate = some c; expires_at = e }))
      → Saved now k c e replace d d'

write_back :
    (w : Writes) (k c e : ℕ) (replace_key : Bool) (d : Disk) (o : ℕ)
    → AllWork w
    → HoldsKey replace_key k d
    → load o (write w k c e replace_key d)
      ≡ some (record { object = o; key = k; certificate = some c; expires_at = e })
unfolding load
write_back w k c e true d o h g = ground arith
write_back w k c e false d o h g = ground arith

fresh_cases :
    (now e : ℕ) (o : Option Credential)
    → is_fresh now e o ≡ true
    → (p : Credential) × (o ≡ some p) × (is_usable now p ≡ true) × (e < p.expires_at + 60000)
fresh_cases now e none h = ground arith
fresh_cases now e (some p) h = (p, refl, ground arith, ground arith)

-- If no call of the operating system fails, and the key is in its file or is written too, then what
-- the cache holds after `_save` is the credential that was saved; or the cache is as it was, which
-- happens only if the saving was no replacement, and the cache held a credential that is usable and
-- expires later than the saved one less a minute.
pub save-Saved :
    (now : ℕ) (w : Writes) (k c e : ℕ) (replace_key replace : Bool) (d : Disk)
    → AllWork w
    → HoldsKey replace_key k d
    → Saved now k c e replace d (save now w k c e replace_key replace d)
unfolding save
save-Saved now w k c e replace_key true d h g = written λ o. write_back w k c e replace_key d o h g
save-Saved now w k c e replace_key false d h g = elim (Bool-cases (is_fresh now e (load 0 d))) [
  | inl f ↦ let (p, l, u, x) = fresh_cases now e (load 0 d) f in rw f (kept p refl l u x refl)
  | inr f ↦ rw f (written λ o. write_back w k c e replace_key d o h g)
]
