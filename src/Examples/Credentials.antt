-- ===== src/Examples/Credentials.antt =====
-- Credentials of thunder_sandbox/asynchronous/credentials.py.
use thunder_sandbox.Prelude.{
  ◌≡◌, ◌≢◌, refl, sym, inl, inr, arith, true, false, Option, none, some, [], ◌∷◌, Text, codes, All,
}
use thunder_sandbox.Common.Errors.{ErrorKind, ok, raise, ◌>>=◌}
use thunder_sandbox.Credentials.Cache.{Credential, is_usable, Disk, load, Writes, save, date}
use thunder_sandbox.Credentials.Cache.Saved.{Saved, save-Saved}
use thunder_sandbox.Credentials.Store.{
  Store, fresh_store, certified, Reply, Answers, ensure, ensure_locked, renew, renew_locked,
  replacement, mint,
}
use thunder_sandbox.Credentials.Store.Ends.{Ensured, ensure-Ensured}
use thunder_sandbox.Credentials.Store.Calls.{ensures, renews, perform_all}
use thunder_sandbox.Credentials.Store.Identity.{YieldsKey, IsOne, LeavesKey, perform_all-IsOne}
use thunder_sandbox.Credentials.Store.Renewal.{renew_once}
use thunder_sandbox.Jobs.Paths.{PosixPath, ◌/ₚ◌, split_slash}
use thunder_sandbox.Config.{validate_sandbox_name}
use thunder_sandbox.Config.Paths.{
  ThunderPaths, thunder_paths, sandbox_public_key, workspace_ssh_certificate,
}
use thunder_sandbox.Config.Paths.Apart.{Shared, workspace_ssh_certificate-Shared}

abbrev all_work : Writes
all_work = record {
  mkdir_fails = false;
  key_fails = false;
  chmod_fails = false;
  certificate_fails = false;
  meta_fails = false;
  left = none;
}

-- the certificate has expired
abbrev stale_cache : Disk
stale_cache = record { key_file = some 7; certificate_file = some 1; meta_file = some 1000 }

abbrev certificate_two : Reply
certificate_two = record { line = certified 2; expires_at = date 9000000 }

abbrev alone : Answers
alone = record {
  asked_at = 2000;
  waited = λ s. s;
  now = 2000;
  generated = 8;
  reply = ok certificate_two;
  others = λ d. d;
  then_now = 2500;
  writes = all_work;
}

abbrev unreachable : Answers
unreachable = record alone { reply = raise ErrorKind.connection }

abbrev stale_store : Store
stale_store = fresh_store stale_cache

abbrev minted : Credential
minted = record { object = 1; key = 7; certificate = some 2; expires_at = 9000000 }

-- the old key is certified again, and both are cached
renewed : ensure alone stale_store ≡ (
  ok minted,
  record {
    current = some minted;
    disk = record { key_file = some 7; certificate_file = some 2; meta_file = some 9000000 };
    made = 2;
    requests = 1;
  },
)
unfolding ensure ensure_locked load mint save is_usable
renewed = refl

held_at_once :
    ensure unreachable (ensure alone stale_store).1 ≡ (ok minted, (ensure alone stale_store).1)
unfolding ensure ensure_locked load mint save is_usable
held_at_once = refl

-- the key is written, the certificate is not: the old certificate stands beside the new key
mismatched :
    load 0 (
      save 2000
        (record all_work { certificate_fails = true; left = some 1 })
        8
        2
        9500000
        true
        false
        (record { key_file = none; certificate_file = some 1; meta_file = some 9000000 }))
    ≡ some (record { object = 0; key = 8; certificate = some 1; expires_at = 9000000 })
unfolding save load is_usable
mismatched = refl

ensure-Ensured_example : Ensured alone stale_store stale_store (ensure alone stale_store)
ensure-Ensured_example = ensure-Ensured alone stale_store

save-Saved_example :
    Saved 2000 7 2 9000000 false stale_cache
      (save 2000 all_work 7 2 9000000 false false stale_cache)
save-Saved_example =
    save-Saved 2000 all_work 7 2 9000000 false false stale_cache (refl, refl, refl, refl, refl)
      (inr refl)

alone-LeavesKey : LeavesKey 7 alone
alone-LeavesKey = record { tasks = λ s h. h; processes = λ d h. h }

stale-IsOne : IsOne 7 stale_store
stale-IsOne = record { cached = refl; current = tt }

perform_all-IsOne_example :
    All (YieldsKey 7) (perform_all (ensures alone ∷ renews alone (some minted) ∷ []) stale_store).0
    × IsOne 7 (perform_all (ensures alone ∷ renews alone (some minted) ∷ []) stale_store).1
perform_all-IsOne_example =
    perform_all-IsOne 7 (ensures alone ∷ renews alone (some minted) ∷ []) stale_store
      (alone-LeavesKey, (alone-LeavesKey, tt)) stale-IsOne

-- a store that has made `minted`, which is then refused
abbrev refused_store : Store
refused_store = record {
  current = some minted;
  disk = record { key_file = some 7; certificate_file = some 2; meta_file = some 9000000 };
  made = 2;
  requests = 1;
}

abbrev reissued : Credential
reissued = record { object = 3; key = 7; certificate = some 2; expires_at = 9000000 }

renewed_again : (renew alone (some minted) refused_store).0 ≡ ok reissued
unfolding renew renew_locked replacement mint load
renewed_again = refl

reissued_usable : is_usable unreachable.now reissued ≡ true
unfolding is_usable
reissued_usable = refl

renew_once_example :
    (reissued.object ≢ minted.object)
    × (renew unreachable (some minted) (renew alone (some minted) refused_store).1
        ≡ (ok reissued, (renew alone (some minted) refused_store).1))
renew_once_example =
    renew_once alone unreachable minted reissued refused_store (omega arith) renewed_again refl
      reissued_usable

-- a digest that serves for these texts
abbrev a_digest : Text → Option Text
a_digest t = some (codes "0123456789abcdef0123456789abcdef")

abbrev home_paths : ThunderPaths
home_paths =
    thunder_paths (λ r. r) (λ t. record { absolute = true; parts = t ∷ [] }) none none
      (record { absolute = true; parts = codes "home" ∷ [] })

abbrev team_certificate : PosixPath
team_certificate = record {
  absolute = true;
  parts =
      codes "home"
      ∷ codes ".thunder"
      ∷ codes "sandbox_keys"
      ∷ codes "id_ed25519-0123456789abcdef-cert.pub"
      ∷ [];
}

team_certificate-eq :
    workspace_ssh_certificate a_digest home_paths (codes "ws-team") ≡ ok team_certificate
unfolding workspace_ssh_certificate thunder_paths ◌/ₚ◌ ◌>>=◌ split_slash
team_certificate-eq = refl

-- another workspace, whose digest begins alike
lab_certificate-eq :
    workspace_ssh_certificate a_digest home_paths (codes "ws-lab") ≡ ok team_certificate
unfolding workspace_ssh_certificate thunder_paths ◌/ₚ◌ ◌>>=◌ split_slash
lab_certificate-eq = refl

workspace_ssh_certificate-Shared_example : Shared a_digest (codes "ws-team") (codes "ws-lab")
workspace_ssh_certificate-Shared_example =
    workspace_ssh_certificate-Shared a_digest
      (λ t h e. let q : codes "0123456789abcdef0123456789abcdef" ≡ h = cc in rw (sym q) refl)
      home_paths (codes "ws-team") (codes "ws-lab") team_certificate
      (inl (team_certificate-eq, lab_certificate-eq))

-- the names of two sandboxes may differ only in what `with_suffix` replaces
one_public_key :
    sandbox_public_key home_paths (codes "run.1") ≡ sandbox_public_key home_paths (codes "run.2")
unfolding sandbox_public_key validate_sandbox_name ◌>>=◌
one_public_key = refl
