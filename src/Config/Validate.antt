-- ===== src/Config/Validate.antt =====
-- internal/config/config.go: `validate` and `checkPermissions`.
use gh_token_broker.Base.{
  ℕ, not, ◌&&◌, List, [], ◌∷◌, Str, eqb, ltb, is_empty, contains, Outcome, ok, ◌>>◌, reject, wrap,
  each,
}
use gh_token_broker.Config.Types.{Config, Issuer, Policy}
use gh_token_broker.Config.Issuers.{IssuerError, validate_issuer}
use gh_token_broker.Config.Urls.{UrlLib, not_absolute}
use gh_token_broker.Perm.Levels.{valid_key, valid_key_level}
use gh_token_broker.Perm.Scope.{Permissions}

abbrev pub max_clock_skew_limit : ℕ
max_clock_skew_limit = 300

pub data ConfigError : Type 0 where
  no_issuers : ConfigError
  in_issuer : Str → IssuerError → ConfigError
  duplicate_issuer duplicate_url duplicate_policy : Str → ConfigError
  bad_skew no_app_id no_key two_keys no_server_issuer bad_server_issuer : ConfigError
  unknown_issuer : Str → Str → ConfigError
  unknown_key : Str → Str → ConfigError
  unsupported_level : Str → Str → Str → ConfigError

unfoldable pub check_permissions : Str → Permissions → Outcome ConfigError (Unit {0})
check_permissions name perms =
    each
      (λ (k, v). do
        reject (not (valid_key k)) (unknown_key name k)
        reject (not (valid_key_level k v)) (unsupported_level name k v))
      perms

-- the loop over the issuers, with the names and URLs seen
unfoldable pub check_issuers :
    UrlLib → List Str → List Str → List Issuer → Outcome ConfigError (Unit {0})
check_issuers lib names urls [] = ok tt
check_issuers lib names urls (iss ∷ rest) = do
  wrap (in_issuer iss.name) (validate_issuer lib iss)
  reject (contains names iss.name) (duplicate_issuer iss.name)
  reject (contains urls iss.issuer) (duplicate_url iss.issuer)
  check_issuers lib (iss.name ∷ names) (iss.issuer ∷ urls) rest

-- the loop over the policies, with the names seen
unfoldable pub check_policies : List Str → List Str → List Policy → Outcome ConfigError (Unit {0})
check_policies issuers seen [] = ok tt
check_policies issuers seen (p ∷ rest) = do
  reject (contains seen p.name) (duplicate_policy p.name)
  reject (not (contains issuers p.issuer)) (unknown_issuer p.name p.issuer)
  check_permissions p.name p.grant
  check_policies issuers (p.name ∷ seen) rest

abbrev pub issuer_names : List Issuer → List Str
issuer_names [] = []
issuer_names (iss ∷ rest) = iss.name ∷ issuer_names rest

unfoldable pub validate : UrlLib → Config → Outcome ConfigError (Unit {0})
validate lib cfg = do
  reject (is_empty cfg.oidc.issuers) no_issuers
  check_issuers lib [] [] cfg.oidc.issuers
  reject (ltb max_clock_skew_limit cfg.oidc.clock_skew_seconds) bad_skew
  reject (eqb cfg.github_app.app_id 0) no_app_id
  reject (is_empty cfg.github_app.private_key_path && is_empty cfg.github_app.private_key_env)
      no_key
  reject
      (not (is_empty cfg.github_app.private_key_path)
        && not (is_empty cfg.github_app.private_key_env))
      two_keys
  reject (is_empty cfg.server.issuer) no_server_issuer
  reject (not_absolute (lib.parse cfg.server.issuer)) bad_server_issuer
  check_policies (issuer_names cfg.oidc.issuers) [] cfg.policies
