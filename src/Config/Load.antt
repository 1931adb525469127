-- ===== src/Config/Load.antt =====
-- internal/config/config.go: `LoadFromBytes` with `checkSingleIssuerShape` and `validateSchema`, and
-- `Lint`. The YAML, JSON and JSON-schema libraries are a parameter.
use gh_token_broker.Base.{
  ℕ, suc, not, ◌&&◌, ◌||◌, Option, none, some, List, [], ◌∷◌, ◌++◌, Str, codes, if◌then◌else◌,
  is_empty, contains, Outcome, ok, ◌>>=◌, ◌>>◌, reject, wrap,
}
use gh_token_broker.Base.Map.{Map, lookup}
use gh_token_broker.Perm.Levels.{found}
use gh_token_broker.Config.Types.{Config, Issuer, Policy, is_preset}
use gh_token_broker.Config.Urls.{UrlLib}
use gh_token_broker.Config.Defaults.{apply_defaults}
use gh_token_broker.Config.Validate.{ConfigError, validate}

-- The document of `checkSingleIssuerShape`: its values are text or something else.
pub record Shape : Type 0 where
  pub oidc : Map (Option Str)
  pub policies : List (Map (Option Str))

pub record Documents : Type 1 where
  pub Failure : Type 0
  pub Raw : Type 0
  pub Doc : Type 0
  pub Compiler : Type 0
  pub Schema : Type 0
  -- `yaml.Unmarshal` into the three types that it is used with
  pub read_shape : Str → Option Shape
  pub read_raw : Str → Outcome Failure Raw
  pub read_config : Str → Outcome Failure Config
  -- `json.Marshal`, `jsonschema.UnmarshalJSON`, `AddResource`, `Compile` and `Validate`
  pub marshal : Raw → Outcome Failure Str
  pub unmarshal : Str → Outcome Failure Doc
  pub add_resource : Doc → Outcome Failure Compiler
  pub compile : Compiler → Outcome Failure Schema
  pub check : Schema → Doc → Outcome Failure (Unit {0})
  -- the embedded `config.schema.json`
  pub config_schema : Str

pub data ShapeError : Type 0 where
  single_issuer : ShapeError
  no_policy_issuer : Str → ℕ → ShapeError

abbrev pub name_of : Option (Option Str) → Str
name_of (some (some name)) = name
name_of _ = []

unfoldable pub check_policy_shapes : ℕ → List (Map (Option Str)) → Outcome ShapeError (Unit {0})
check_policy_shapes i [] = ok tt
check_policy_shapes i (p ∷ rest) = do
  reject (not (found (lookup (codes "issuer") p)))
      (no_policy_issuer (name_of (lookup (codes "name") p)) i)
  check_policy_shapes (suc i) rest

abbrev pub check_shape : Option Shape → Outcome ShapeError (Unit {0})
check_shape none = ok tt
check_shape (some doc) = do
  reject (found (lookup (codes "issuer") doc.oidc) || found (lookup (codes "audience") doc.oidc))
      single_issuer
  check_policy_shapes 0 doc.policies

pub data SchemaError (Failure : Type 0) : Type 0 where
  bad_yaml not_json bad_document bad_schema not_registered not_compiled not_valid :
      Failure → SchemaError Failure

pub data LoadError (Failure : Type 0) : Type 0 where
  old_shape : ShapeError → LoadError Failure
  schema : SchemaError Failure → LoadError Failure
  undecodable : Failure → LoadError Failure
  refused : ConfigError → LoadError Failure

module _ (docs : Documents) where
  open docs use {
    Failure, read_shape, read_raw, read_config, marshal, unmarshal, add_resource, compile, check,
    config_schema,
  }

  unfoldable pub check_single_issuer_shape : Str → Outcome ShapeError (Unit {0})
  check_single_issuer_shape bytes = check_shape (read_shape bytes)

  unfoldable pub validate_schema : Str → Outcome (SchemaError Failure) (Unit {0})
  validate_schema bytes = do
    raw ← wrap bad_yaml (read_raw bytes)
    json ← wrap not_json (marshal raw)
    doc ← wrap bad_document (unmarshal json)
    schema_doc ← wrap bad_schema (unmarshal config_schema)
    compiler ← wrap not_registered (add_resource schema_doc)
    compiled ← wrap not_compiled (compile compiler)
    wrap not_valid (check compiled doc)

  -- `port` is the environment variable PORT.
  unfoldable pub load_from_bytes : UrlLib → Str → Str → Outcome (LoadError Failure) Config
  load_from_bytes lib port bytes = do
    wrap old_shape (check_single_issuer_shape bytes)
    wrap schema (validate_schema bytes)
    decoded ← wrap undecodable (read_config bytes)
    wrap refused (validate lib (apply_defaults port decoded))
    ok (apply_defaults port decoded)

pub data Lint : Type 0 where
  no_policies : Lint
  unreferenced no_require : Str → Lint

abbrev pub policy_issuers : List Policy → List Str
policy_issuers [] = []
policy_issuers (p ∷ rest) = p.issuer ∷ policy_issuers rest

-- the loop over the issuers
unfoldable pub lint_issuers : List Str → List Issuer → List Lint
lint_issuers referenced [] = []
lint_issuers referenced (iss ∷ rest) =
    (if contains referenced iss.name then [] else unreferenced iss.name ∷ [])
    ++ ((if is_preset iss && is_empty iss.require then no_require iss.name ∷ [] else [])
        ++ lint_issuers referenced rest)

unfoldable pub lint : Config → List Lint
lint cfg =
    (if is_empty cfg.policies then no_policies ∷ [] else [])
    ++ lint_issuers (policy_issuers cfg.policies) cfg.oidc.issuers
