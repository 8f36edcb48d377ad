-- ===== src/Config/Resolved.antt =====
-- What a configuration is resolved to (thunder_sandbox/_common/config.py).
use thunder_sandbox.Prelude.{
  ℕ, and_true, false_of_not, ◌≡◌, refl, inl, inr, true, false, ◌&&◌, Option, none, some, [], ◌∷◌,
  Text, codes, text_eq→eq, is_empty, ◌==◌, Bool-cases, Option-cases,
}
use thunder_sandbox.Common.Errors.{ok, ok≢err, guard-eq-ok, Yields, Yields-ok, Yields-bind}
use thunder_sandbox.Common.Json.{Json, Fields, get, is_truthy}
use thunder_sandbox.Common.Whitespace.{rstrip}
use thunder_sandbox.Config.{
  ConfigFile, ClientConfig, or_next, url_of, checked_url, client_config, from_cli, text_or_default,
  or_default,
}

rstrip_idem : (k : ℕ) (t : Text) → rstrip k (rstrip k t) ≡ rstrip k t
rstrip_idem k [] = refl
rstrip_idem k (c ∷ cs) =
    let r = rstrip_idem k cs in
    elim (Bool-cases (c == k && is_empty (rstrip k cs))) [
      | inl q ↦ rw (rstrip, q) refl
      | inr q ↦ rw (rstrip, q) (rw (rstrip, r, q) refl)
    ]

module _ (str_of : Json → Text) (urlsplit : Text → Option (Text × Text)) where
  -- the URL is absolute, is one of HTTPS, and does not end with a slash
  pub record Secure (url : Text) : Type 0 where
    pub scheme : Text
    pub location : Text
    pub split : urlsplit url ≡ some (scheme, location)
    pub https : scheme ≡ codes "https"
    pub absolute : is_empty location ≡ false
    pub no_slash : rstrip 47 url ≡ url

  checked_url-Secure :
      (url : Text) (u : Unit {0})
      → rstrip 47 url ≡ url
      → checked_url str_of urlsplit url ≡ ok u
      → Secure url
  checked_url-Secure url u n = elim (Option-cases (urlsplit url)) [
    | inl q ↦ rw (checked_url, q) (λ e. absurd (ok≢err e))
    | inr (p, q) ↦
        rw (checked_url, q)
          (λ e.
            let b = and_true _ _ (guard-eq-ok _ _ e) in
            record {
              scheme = p.0;
              location = p.1;
              split = q;
              https = text_eq→eq _ _ b.0;
              absolute = false_of_not _ b.1;
              no_slash = n;
            })
  ]

  url_of-no_slash :
      (api_url url_variable : Option Text) (cli : Fields)
      → rstrip 47 (url_of str_of urlsplit api_url url_variable cli)
        ≡ url_of str_of urlsplit api_url url_variable cli
  url_of-no_slash api_url url_variable cli = rstrip_idem 47 (
      text_or_default str_of urlsplit (
        or_default str_of urlsplit
          (or_next api_url (or_next url_variable (get (codes "api_url") cli)))))

  client_config-Yields :
      (api_url api_token url_variable token_variable : Option Text) (file : ConfigFile)
      → Yields
          (λ c. Secure c.api_url)
          (client_config str_of urlsplit api_url api_token url_variable token_variable file)
  unfolding client_config
  client_config-Yields api_url api_token url_variable token_variable file =
      Yields-bind _ _ (λ cli e.
        Yields-bind _ _ (λ u g.
          Yields-ok _ (checked_url-Secure _ u (url_of-no_slash api_url url_variable cli) g)))

  from_cli-Yields :
      (url_variable token_variable : Option Text) (file : ConfigFile)
      → Yields
          (λ c. Secure c.api_url × (is_truthy c.api_token ≡ true))
          (from_cli str_of urlsplit url_variable token_variable file)
  unfolding from_cli
  from_cli-Yields url_variable token_variable file = Yields-bind _ _ (λ c e. Yields-bind _ _ (λ u g.
      Yields-ok _ (
        (client_config-Yields none none url_variable token_variable file).at c e,
        guard-eq-ok _ _ g,
      )))

  -- A configuration that is taken from the command line's file and the environment has a token, and an
  -- absolute HTTPS URL that does not end with a slash, whatever these hold.
  pub from_cli-Secure :
      (url_variable token_variable : Option Text) (file : ConfigFile) (c : ClientConfig)
      → from_cli str_of urlsplit url_variable token_variable file ≡ ok c
      → Secure c.api_url × (is_truthy c.api_token ≡ true)
  from_cli-Secure url_variable token_variable file c e =
      (from_cli-Yields url_variable token_variable file).at c e
