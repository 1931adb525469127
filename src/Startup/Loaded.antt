-- ===== src/Startup/Loaded.antt =====
-- cmd/gh-token-broker/main.go: what a broker that has started is known to be configured with.
use gh_token_broker.Base.{
  ◌*◌, ◌≡◌, subst, not, Str, codes, is_empty, ok, wrap, wrap-eq-ok, >>=-eq-ok, ok_injective, inl,
  inr, Bool-cases,
}
use gh_token_broker.Config.Types.{Config}
use gh_token_broker.Config.Load.{
  load_from_bytes, check_single_issuer_shape, validate_schema, old_shape, schema, undecodable,
  refused,
}
use gh_token_broker.Config.Defaults.{apply_defaults}
use gh_token_broker.Config.Validate.{validate}
use gh_token_broker.Config.Sound.{IsValid, validate-IsValid}
use gh_token_broker.Config.Grants.{aggregate_grant_permissions}
use gh_token_broker.Auth.Claims.{second}
use gh_token_broker.Auth.Registry.{new_authenticator}
use gh_token_broker.Policy.Build.{new_engine}
use gh_token_broker.GithubApp.Client.{Log}
use gh_token_broker.GithubApp.Manifest.{validate_app_permissions}
use gh_token_broker.GithubApp.Identity.{fetch_app_identity, new_client}
use gh_token_broker.Startup.{
  World, Started, load, start, port, bad_config, unreadable, bad_issuers, bad_policies, bad_key,
  bad_app, no_identity,
}

module _ (w : World) where
  load_from_bytes-IsValid :
      (bytes : Str) (cfg : Config)
      → load_from_bytes w.docs w.urls (port w) bytes ≡ ok cfg
      → IsValid w.urls cfg
  unfolding load_from_bytes
  load_from_bytes-IsValid bytes cfg h0 =
      let (_, _, h1) = >>=-eq-ok (wrap old_shape (check_single_issuer_shape w.docs bytes)) _ h0 in
      let (_, _, h2) = >>=-eq-ok (wrap schema (validate_schema w.docs bytes)) _ h1 in
      let (decoded, _, h3) = >>=-eq-ok (wrap undecodable (w.docs.read_config bytes)) _ h2 in
      let (_, valid, h4) =
        >>=-eq-ok (wrap refused (validate w.urls (apply_defaults (port w) decoded))) _ h3 in
      subst (IsValid w.urls) (ok_injective h4)
        (validate-IsValid w.urls (apply_defaults (port w) decoded) (wrap-eq-ok refused _ valid))

  load-IsValid : (path : Str) (cfg : Config) → load w path ≡ ok cfg → IsValid w.urls cfg
  unfolding load
  load-IsValid path cfg h =
      let env = w.machine.getenv (codes "GH_TOKEN_BROKER_CONFIG") in
      elim (Bool-cases (not (is_empty env))) [
        | inl given ↦ load_from_bytes-IsValid env cfg (wrap-eq-ok bad_config _ (rw given at h))
        | inr not_given ↦
            let (bytes, _, h1) =
              >>=-eq-ok (wrap unreadable (w.machine.read_file path)) _ (rw not_given at h) in
            load_from_bytes-IsValid bytes cfg (wrap-eq-ok bad_config _ h1)
      ]

  -- The parts of a started broker, as their constructors returned them.
  pub record IsReady (st : Started w) : Type 0 where
    pub valid : IsValid w.urls st.cfg
    pub registered :
        new_authenticator w.oidc.Failure w.key_set st.cfg.oidc.issuers
          (st.cfg.oidc.clock_skew_seconds * second)
        ≡ ok st.registry
    pub built : new_engine w.cel w.env st.cfg ≡ ok st.engine
    pub permitted :
        validate_app_permissions w.gh.Failure w.app (aggregate_grant_permissions st.cfg.policies)
        ≡ ok tt

  pub start-IsReady :
      (path : Str) (log : Log) (st : Started w) → start w path log ≡ ok st → IsReady st
  unfolding start
  start-IsReady path log st h0 =
      let (cfg, loaded, h1) = >>=-eq-ok (load w path) _ h0 in
      let (registry, registered, h2) =
        >>=-eq-ok
          (wrap bad_issuers (
            new_authenticator w.oidc.Failure w.key_set cfg.oidc.issuers
              (cfg.oidc.clock_skew_seconds * second)))
          _ h1 in
      let (engine, built, h3) = >>=-eq-ok (wrap bad_policies (new_engine w.cel w.env cfg)) _ h2 in
      let (_, _, h4) = >>=-eq-ok (wrap bad_key (new_client w.machine cfg.github_app)) _ h3 in
      let (_, permitted, h5) =
        >>=-eq-ok
          (wrap bad_app (
            validate_app_permissions w.gh.Failure w.app (aggregate_grant_permissions cfg.policies)))
          _ h4 in
      let (identity, _, h6) =
        >>=-eq-ok (wrap no_identity (fetch_app_identity w.gh w.api log).1) _ h5 in
      subst IsReady (ok_injective h6) (record {
        valid = load-IsValid path cfg loaded;
        registered = wrap-eq-ok bad_issuers _ registered;
        built = wrap-eq-ok bad_policies _ built;
        permitted = wrap-eq-ok bad_app _ permitted;
      })
