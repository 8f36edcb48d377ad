-- ===== src/Ssh/Open/Trust.antt =====
-- With which credentials a connection is tried, and whom it trusts
-- (thunder_sandbox/asynchronous/sandbox.py).
use thunder_sandbox.Prelude.{
  ℕ, ◌≡◌, refl, sym, ap, ◌∙◌, ◌⊎◌, inl, inr, Bool, true, false, Option, none, some, List, ◌∷◌,
  if◌then◌else◌,
}
use thunder_sandbox.Common.Errors.{Result, ok, err}
use thunder_sandbox.Ssh.Manager.{SshError, Reply, returned, raised}
use thunder_sandbox.Credentials.Cache.{Credential}
use thunder_sandbox.Credentials.Store.{Store, ensure, renew}
use thunder_sandbox.Ssh.Open.{
  Host, Opened, connection, Server, Answers, remembered, pin, accept, with_renewed, after_dial,
  with_credential, open_connection,
}

-- the credentials that were tried: none, one, or one that was denied and the one that replaced it
pub data Attempts (a : Answers) (h : Host) (ts : List Credential) : Type 0 where
  no_attempt : ts ≡ h.tried → Attempts a h ts
  one_attempt : (c : Credential) → ts ≡ c ∷ h.tried → Attempts a h ts
  renewed :
      (c d : Credential) (s : Store)
      → ts ≡ d ∷ c ∷ h.tried
      → a.first h.pinned c ≡ raised SshError.permission_denied
      → (renew a.renewing (some c) s).0 ≡ ok d
      → Attempts a h ts

-- a connection was accepted by a server that was given the pinned host key, if there was one, and
-- that key, or else the connection's, is pinned
pub record Accepted (a : Answers) (h : Host) (key : ℕ) (p : Option ℕ) : Type 0 where
  pub server : Server
  pub credential : Credential
  pub genuine : (server ≡ a.first) ⊎ (server ≡ a.second)
  pub answered : server h.pinned credential ≡ returned key
  pub known : (k : ℕ) → h.pinned ≡ some k → p ≡ some k
  pub new : h.pinned ≡ none → (k : ℕ) × (a.remember key ≡ ok k) × (p ≡ some k)

abbrev pub Outcome : Answers → Host → Opened × Host → Type 0
Outcome a h (connection key, g) = Accepted a h key g.pinned
Outcome a h (_, g) = g.pinned ≡ h.pinned

pub record Careful (a : Answers) (h : Host) (x : Opened × Host) : Type 0 where
  pub attempts : Attempts a h x.1.tried
  pub outcome : Outcome a h x

module _ (a : Answers) (h : Host) where
  remembered-Careful :
      (r : Result ℕ) (key : ℕ) (g : Host) (server : Server) (c : Credential)
      → Attempts a h g.tried
      → (server ≡ a.first) ⊎ (server ≡ a.second)
      → server h.pinned c ≡ returned key
      → g.pinned ≡ h.pinned
      → h.pinned ≡ none
      → a.remember key ≡ r
      → Careful a h (remembered r key g)
  remembered-Careful (ok k) key g server c t q w p n m = record {
    attempts = t;
    outcome = record {
      server = server;
      credential = c;
      genuine = q;
      answered = w;
      known = λ j e. absurd (cc (n, e));
      new = λ e. (k, m, refl);
    };
  }
  remembered-Careful (err e) key g server c t q w p n m = record { attempts = t; outcome = p }

  pin-Careful :
      (o : Option ℕ) (key : ℕ) (g : Host) (server : Server) (c : Credential)
      → Attempts a h g.tried
      → (server ≡ a.first) ⊎ (server ≡ a.second)
      → server h.pinned c ≡ returned key
      → g.pinned ≡ h.pinned
      → h.pinned ≡ o
      → Careful a h (pin a o key g)
  pin-Careful none key g server c t q w p n =
      remembered-Careful (a.remember key) key g server c t q w p n refl
  pin-Careful (some k) key g server c t q w p n = record {
    attempts = t;
    outcome = record {
      server = server;
      credential = c;
      genuine = q;
      answered = w;
      known = λ j e. p ∙ e;
      new = λ e. absurd (cc (n, e));
    };
  }

  accept-Careful :
      (r : Reply ℕ) (g : Host) (server : Server) (c : Credential)
      → Attempts a h g.tried
      → (server ≡ a.first) ⊎ (server ≡ a.second)
      → server h.pinned c ≡ r
      → g.pinned ≡ h.pinned
      → Careful a h (accept a (r, g))
  accept-Careful (returned key) g server c t q w p =
      pin-Careful g.pinned key g server c t q w p (sym p)
  accept-Careful (raised e) g server c t q w p = record { attempts = t; outcome = p }

  renewed-Careful :
      (x : Result Credential × Store) (c : Credential) (g : Host)
      → g.tried ≡ c ∷ h.tried
      → g.pinned ≡ h.pinned
      → a.first h.pinned c ≡ raised SshError.permission_denied
      → renew a.renewing (some c) g.store ≡ x
      → Careful a h (with_renewed a x g)
  renewed-Careful (err e, s) c g t p w r = record { attempts = one_attempt c t; outcome = p }
  renewed-Careful (ok d, s) c g t p w r =
      accept-Careful (a.second g.pinned d) _ a.second d
        (renewed c d g.store (ap (λ ts. d ∷ ts) t) w (ap (λ y. y.0) r)) (inr refl)
        (ap (λ o. a.second o d) (sym p)) p

  dialled-Careful :
      (r : Reply ℕ) (c : Credential) (g : Host)
      → a.first h.pinned c ≡ r
      → g.tried ≡ c ∷ h.tried
      → g.pinned ≡ h.pinned
      → Careful a h (after_dial a c (r, g))
  dialled-Careful (returned key) c g w t p =
      accept-Careful (returned key) g a.first c (one_attempt c t) (inl refl) w p
  dialled-Careful (raised SshError.permission_denied) c g w t p =
      renewed-Careful (renew a.renewing (some c) g.store) c g t p w refl
  dialled-Careful (raised e) c g w t p =
      accept-Careful (raised e) g a.first c (one_attempt c t) (inl refl) w p

  credential-Careful : (x : Result Credential × Store) → Careful a h (with_credential a x h)
  credential-Careful (err e, s) = record { attempts = no_attempt refl; outcome = refl }
  credential-Careful (ok c, s) = dialled-Careful (a.first h.pinned c) c _ refl refl refl

  either-Careful :
      (b : Bool) (x y : Opened × Host)
      → Careful a h x
      → Careful a h y
      → Careful a h (if b then x else y)
  either-Careful true x y f g = f
  either-Careful false x y f g = g

-- However an opening ends, at most two credentials were tried, and a second one only if the server had
-- denied the first and a renewal of that had returned it. A host key that is pinned is what the server
-- is tried with, and it stays pinned; a connection is returned only if a server accepted it, and then a
-- host key is pinned, which is the connection's if none was.
pub open_connection-Careful : (a : Answers) (h : Host) → Careful a h (open_connection a h)
unfolding open_connection
open_connection-Careful a h =
    either-Careful a h a.has_ssh _ _ (credential-Careful a h (ensure a.ensuring h.store))
      (record { attempts = no_attempt refl; outcome = refl })
