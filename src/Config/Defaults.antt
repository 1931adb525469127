-- ===== src/Config/Defaults.antt =====
-- internal/config/config.go: `applyDefaults`. The value of the environment variable PORT is an
-- argument.
use gh_token_broker.Base.{[], ◌∷◌, ◌++◌, map, Str, codes, if◌then◌else◌, eqb, is_empty}
use gh_token_broker.Config.Types.{Config, Issuer, is_preset}
use gh_token_broker.Config.Claims.{github_claims, github_audit_claims}

abbrev pub github_issuer_host : Str
github_issuer_host = codes "token.actions.githubusercontent.com"

abbrev pub github_issuer_url : Str
github_issuer_url = codes "https://" ++ github_issuer_host

abbrev pub default_bind : Str → Str → Str
default_bind port bind =
    if is_empty bind then if is_empty port then codes ":8080" else b':' ∷ port else bind

-- What the preset sets.
abbrev pub preset_defaults : Issuer → Issuer
preset_defaults iss = record iss {
  issuer = if is_empty iss.issuer then github_issuer_url else iss.issuer;
  claims = if is_empty iss.claims then github_claims else iss.claims;
  audit_claims = github_audit_claims;
}

abbrev pub common_defaults : Issuer → Issuer
common_defaults iss = record iss {
  algorithms = if is_empty iss.algorithms then codes "RS256" ∷ [] else iss.algorithms;
  max_token_lifetime_seconds =
      if eqb iss.max_token_lifetime_seconds 0 then 3600 else iss.max_token_lifetime_seconds;
}

-- one round of the loop over the issuers
unfoldable pub default_issuer : Issuer → Issuer
default_issuer iss = common_defaults (if is_preset iss then preset_defaults iss else iss)

unfoldable pub apply_defaults : Str → Config → Config
apply_defaults port cfg = record cfg {
  server = record cfg.server { bind = default_bind port cfg.server.bind };
  oidc = record {
    issuers = map default_issuer cfg.oidc.issuers;
    clock_skew_seconds =
        if eqb cfg.oidc.clock_skew_seconds 0 then 60 else cfg.oidc.clock_skew_seconds;
  };
  policy = record {
    cost_limit = if eqb cfg.policy.cost_limit 0 then 10_000 else cfg.policy.cost_limit;
    max_repositories =
        if eqb cfg.policy.max_repositories 0 then 256 else cfg.policy.max_repositories;
  };
}
