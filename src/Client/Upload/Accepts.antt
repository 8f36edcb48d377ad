-- ===== src/Client/Upload/Accepts.antt =====
-- What the reply that allows an upload of an image's build context is read as
-- (thunder_sandbox/asynchronous/client.py).
use thunder_sandbox.Prelude.{
  ℕ, ◌≤◌, ◌≡◌, ap, ◌∙◌, inl, inr, false, ◌&&◌, Option, none, some, Text, text_eq, text_eq→eq, leb,
  is_empty, arith, Bool-cases, codes, pos,
}
use thunder_sandbox.Common.Errors.{
  ErrorKind, raise, ok, ok-injective, ok≢err, Yields, Yields-ok, Yields-err, Yields-bind,
}
use thunder_sandbox.Common.Json.{Json, Fields, get}
use thunder_sandbox.Common.Whitespace.{strip}
use thunder_sandbox.Client.Upload.{
  Target, upload_target, member, host_of, port_of, exactly, key_of, or_invalid,
}

-- what holds of a target that a reply is read as
pub record Accepted (canonical : Text → Option Text) (fs : Fields) (t : Target) : Type 0 where
  pub host_filled : is_empty t.host ≡ false
  pub host_trimmed : t.host ≡ strip t.host
  pub port_low : 1 ≤ t.port
  pub port_high : t.port ≤ 65535
  pub username : get (codes "username") fs ≡ some (Json.str (codes "image-upload"))
  pub path : get (codes "path") fs ≡ some (Json.str (codes "/build-context.tar"))
  pub key : (k : Text) × (canonical k ≡ some t.host_key) × (t.host_key ≡ strip k)

or_invalid-some {ℓ} : {A : Type ℓ} (o : Option A) (a : A) → or_invalid o ≡ ok a → o ≡ some a
or_invalid-some none a e = absurd (ok≢err e)
or_invalid-some (some b) a e = ap some (ok-injective e)

or_none :
    (o : Option Json) (j : Json)
    → elim o [ none ↦ raise ErrorKind.connection | some i ↦ ok i ] ≡ ok j
    → o ≡ some j
or_none none j e = absurd (ok≢err e)
or_none (some i) j e = ap some (ok-injective e)

member-get : (k : Text) (fs : Fields) (j : Json) → member k fs ≡ ok j → get k fs ≡ some j
member-get k fs j e = or_none (get k fs) j e

host_of-Yields : (j : Json) → Yields (λ t. (is_empty t ≡ false) × (t ≡ strip t)) (host_of j)
host_of-Yields (Json.str t) = elim (Bool-cases (is_empty t)) [
  | inl e ↦ rw e (Yields-err _)
  | inr e ↦ elim (Bool-cases (text_eq t (strip t))) [
    | inl q ↦ rw e (rw q (Yields-ok t (e, text_eq→eq t (strip t) q)))
    | inr q ↦ rw e (rw q (Yields-err _))
  ]
]
host_of-Yields j = Yields-err _

port_of-Yields : (j : Json) → Yields (λ n. (1 ≤ n) × (n ≤ 65535)) (port_of j)
port_of-Yields (Json.int (pos n)) = elim (Bool-cases (leb 1 n && leb n 65535)) [
  | inl e ↦ rw e (Yields-ok n (ground arith, ground arith))
  | inr e ↦ rw e (Yields-err _)
]
port_of-Yields j = Yields-err _

exactly-str : (t : Text) (j : Json) (u : Unit {0}) → exactly t j ≡ ok u → j ≡ Json.str t
exactly-str t (Json.str s) u = elim (Bool-cases (text_eq s t)) [
  | inl q ↦ λ e. ap Json.str (text_eq→eq s t q)
  | inr q ↦ rw q (λ e. absurd (ok≢err e))
]
exactly-str t j u = λ e. absurd (ok≢err e)

module _ (date_of : Text → Option ℕ) (canonical : Text → Option Text) where
  key_of-Yields :
      (k : Text) → Yields (λ c. (canonical k ≡ some c) × (c ≡ strip k)) (key_of date_of canonical k)
  key_of-Yields k = Yields-bind _ _ (λ c e. elim (Bool-cases (text_eq c (strip k))) [
    | inl q ↦ rw q (Yields-ok c (or_invalid-some _ _ e, text_eq→eq c (strip k) q))
    | inr q ↦ rw q (Yields-err _)
  ])

  -- A reply that is accepted as the target of an upload names a host that is not empty and has no
  -- white space around it, a port of TCP, the user and the path that are agreed on, and a key in its
  -- canonical form, whatever the libraries take texts for.
  pub upload_target-Accepted :
      (fs : Fields) → Yields (Accepted canonical fs) (upload_target date_of canonical fs)
  unfolding upload_target
  upload_target-Accepted fs = Yields-bind _ _ λ host e1. Yields-bind _ _ λ port e2.
      Yields-bind _ _ λ username e3. Yields-bind _ _ λ path e4. Yields-bind _ _ λ key e5.
        Yields-bind _ _ λ date e6. Yields-bind _ _ λ h e7. Yields-bind _ _ λ p e8.
          Yields-bind _ _ λ u e9. Yields-bind _ _ λ v e10. Yields-bind _ _ λ k e11.
            Yields-bind _ _ λ d e12. Yields-bind _ _ λ e e13. Yields-bind _ _ λ c e14.
              Yields-ok _ (record {
                host_filled = ((host_of-Yields host).at h e7).0;
                host_trimmed = ((host_of-Yields host).at h e7).1;
                port_low = ((port_of-Yields port).at p e8).0;
                port_high = ((port_of-Yields port).at p e8).1;
                username = member-get _ fs username e3 ∙ ap some (exactly-str _ username u e9);
                path = member-get _ fs path e4 ∙ ap some (exactly-str _ path v e10);
                key = (let found = (key_of-Yields k).at c e14 in (k, found.0, found.1));
              })
