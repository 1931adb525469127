-- ===== src/Startup.antt =====
-- cmd/gh-token-broker/main.go: `run` up to the server that listens. The libraries of all parts are
-- parameters; log lines and the shutdown are left out.
pub mod Loaded
pub mod Ready
pub mod Tests
use gh_token_broker.Base.{
  ℕ, ◌*◌, ◌≤◌, ◌≡◌, ◌++◌, Bool, not, Option, some, List, [], Str, codes, if◌then◌else◌, is_empty,
  Outcome, ok, err, ◌>>=◌, ◌>>◌, reject, wrap, wrap-eq-ok, >>=-eq-ok, All,
}
use gh_token_broker.Config.Types.{Config, Issuer, OidcConfig}
use gh_token_broker.Config.Urls.{UrlLib}
use gh_token_broker.Config.Load.{Documents, LoadError, load_from_bytes}
use gh_token_broker.Config.Grants.{aggregate_grant_permissions}
use gh_token_broker.Auth.Identity.{Identity}
use gh_token_broker.Auth.Claims.{second}
use gh_token_broker.Auth.Authenticate.{Oidc, AuthError, authenticate}
use gh_token_broker.Auth.Registry.{Registry, RegistryError, new_authenticator}
use gh_token_broker.Policy.Engine.{Cel, Engine}
use gh_token_broker.Policy.Build.{CelEnv, BuildError, new_engine}
use gh_token_broker.GithubApp.Client.{GitHub, Log}
use gh_token_broker.GithubApp.Manifest.{Manifest, AppError, validate_app_permissions}
use gh_token_broker.GithubApp.Identity.{
  AppIdentity, AppApi, IdentityError, fetch_app_identity, Machine, KeyError, new_client,
}
use gh_token_broker.Server.Handler.{Server}

-- The libraries and services that a start uses.
pub record World : Type 1 where
  pub docs : Documents
  pub urls : UrlLib
  pub machine : Machine
  pub cel : Cel
  pub env : CelEnv cel
  pub oidc : Oidc
  pub gh : GitHub
  pub api : AppApi gh
  -- `discover` for the issuer's keys
  pub key_set : Issuer → Outcome oidc.Failure (Unit {0})
  -- the answer to `GET /app`
  pub app : Outcome gh.Failure Manifest

module _ (w : World) where
  pub data StartError : Type 0 where
    unreadable : w.machine.Failure → StartError
    bad_config : LoadError w.docs.Failure → StartError
    bad_issuers : RegistryError w.oidc.Failure → StartError
    bad_policies : BuildError w.env.Issues → StartError
    bad_key : KeyError w.machine.Failure → StartError
    bad_app : AppError w.gh.Failure → StartError
    no_identity : IdentityError w.gh.Failure → StartError

  pub record Started : Type 0 where
    pub cfg : Config
    pub registry : Registry
    pub engine : Engine w.cel
    pub identity : AppIdentity

  abbrev pub port : Str
  port = w.machine.getenv (codes "PORT")

  -- the choice of the configuration's source, with `Load` for a file
  unfoldable pub load : Str → Outcome StartError Config
  load path =
      if not (is_empty (w.machine.getenv (codes "GH_TOKEN_BROKER_CONFIG")))
      then wrap bad_config
          (load_from_bytes w.docs w.urls port (w.machine.getenv (codes "GH_TOKEN_BROKER_CONFIG")))
      else (do
        bytes ← wrap unreadable (w.machine.read_file path)
        wrap bad_config (load_from_bytes w.docs w.urls port bytes))

  unfoldable pub start : Str → Log → Outcome StartError Started
  start path log = do
    cfg ← load path
    registry ← wrap bad_issuers (
        new_authenticator w.oidc.Failure w.key_set cfg.oidc.issuers
          (cfg.oidc.clock_skew_seconds * second))
    engine ← wrap bad_policies (new_engine w.cel w.env cfg)
    signer ← wrap bad_key (new_client w.machine cfg.github_app)
    wrap bad_app
        (validate_app_permissions w.gh.Failure w.app (aggregate_grant_permissions cfg.policies))
    identity ← wrap no_identity (fetch_app_identity w.gh w.api log).1
    ok (record { cfg = cfg; registry = registry; engine = engine; identity = identity })

  abbrev pub Failure : Type 0
  Failure = AuthError w.oidc.Failure

  -- `server.New`, with the times at which the token is checked and the response written
  unfoldable pub server_of : Started → ℕ → ℕ → Server w.cel w.gh Failure
  server_of st received now = record {
    authenticate = authenticate w.oidc st.registry.authenticator received;
    engine = st.engine;
    app_name = st.identity.name;
    app_email = st.identity.email;
    now = now;
  }
