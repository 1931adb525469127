-- ===== src/Config/Types.antt =====
-- internal/config/config.go: the configuration after it has been decoded. The schema, which is
-- checked before the document is decoded, admits no negative number.
use gh_token_broker.Base.{ℕ, List, Str, codes, Bool, ◌==◌}
use gh_token_broker.Base.Map.{Map}
use gh_token_broker.Perm.Scope.{Permissions}

pub record Issuer : Type 0 where
  pub name : Str
  pub preset : Str
  pub issuer : Str
  pub audience : Str
  pub algorithms : List Str
  pub max_token_lifetime_seconds : ℕ
  pub claims : List Str
  pub require : Map (List Str)
  pub audit_claims : List Str

pub record ServerConfig : Type 0 where
  pub bind : Str
  pub issuer : Str

pub record OidcConfig : Type 0 where
  pub issuers : List Issuer
  pub clock_skew_seconds : ℕ

pub record GithubAppConfig : Type 0 where
  pub app_id : ℕ
  pub private_key_path : Str
  pub private_key_env : Str

pub record PolicyConfig : Type 0 where
  pub cost_limit : ℕ
  pub max_repositories : ℕ

pub record Policy : Type 0 where
  pub name : Str
  pub issuer : Str
  pub condition : Str
  pub grant : Permissions

pub record Config : Type 0 where
  pub server : ServerConfig
  pub oidc : OidcConfig
  pub github_app : GithubAppConfig
  pub policy : PolicyConfig
  pub policies : List Policy

abbrev pub github_preset : Str
github_preset = codes "github"

unfoldable pub is_preset : Issuer → Bool
is_preset i = i.preset == github_preset
