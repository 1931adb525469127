-- ===== src/Startup/Tests.antt =====
-- A start of the broker with one issuer and one policy.
use gh_token_broker.Base.{
  ◌↔◌, ◌≢◌, contains, each, cut, map, ◌≡◌, ◌++◌, refl, false, Option, none, some, [], ◌∷◌, Str,
  codes, ◌==◌, if◌then◌else◌, Outcome, ok, err, All,
}
use gh_token_broker.Config.Lints.{IsLinted, lint_iff}
use gh_token_broker.Config.Load.{
  lint, validate_schema, check_single_issuer_shape, load_from_bytes, Documents,
}
use gh_token_broker.Auth.Claims.{identity, Claims, text}
use gh_token_broker.Auth.Authenticate.{authenticate, Oidc}
use gh_token_broker.GithubApp.Client.{
  mint_installation_token, mint, mint_kind, resolve, mint_scoped_token, resolve_installation, Log,
  org_installation, post_token,
}
use gh_token_broker.GithubApp.Identity.{
  fetch_bot, identity_token, fetch_app_identity, load_private_key, new_client, AppApi, Machine,
}
use gh_token_broker.Perm.Scope.{gaps, satisfies, normalize, intersect}
use gh_token_broker.Perm.Levels.{
  level_ord, valid_level, allows, level_name, valid_key_level, valid_key,
}
use gh_token_broker.Config.Grants.{raise_entry, aggregate_grant_permissions, HasGrant}
use gh_token_broker.GithubApp.Manifest.{validate_app_permissions}
use gh_token_broker.Policy.Reads.{
  string_literal, resources_shape, references, literal_comparison, is_string_literal,
  is_resource_ref, is_request_field, indexed_claim, compared_to_literal, compared_in,
  compared_above, caller_claim, is_ident,
}
use gh_token_broker.Policy.Condition.Check.{identity_claims, condition_warnings, check_condition}
use gh_token_broker.Policy.Condition.Anchored.{
  chain, caller_anchored, bounds_caller, anchors, bounds_resource, constrains_by, constrains,
}
use gh_token_broker.Policy.Ast.{nodes, match_descendants}
use gh_token_broker.Config.Claims.{identities_of, github_identity_claims}
use gh_token_broker.Policy.Build.{
  compile, append_policy, index_issuers, add_policy, add_policies, new_engine,
}
use gh_token_broker.Perm.Catalog.{catalog}
use gh_token_broker.Auth.Registry.{
  add_algorithms, register, register_all, Registry, IsRegistered, new_authenticator,
  new_authenticator-IsRegistered,
}
use gh_token_broker.Config.Validate.{check_permissions, check_policies, check_issuers, validate}
use gh_token_broker.Startup.{load, Failure, StartError, World, Started, start, server_of}
use gh_token_broker.Base.Sort.{insert_sorted, sort}
use gh_token_broker.Config.Issuers.{
  check_required, check_claim_name, check_unique, check_plain, match_issuer_name, cut_prefix,
  validate_issuer,
}
use gh_token_broker.Config.Urls.{ends_with, parse_issuer_url, UrlParts, UrlLib}
use gh_token_broker.Resource.Pattern.{is_slug_byte, match_owner, match_repo}
use gh_token_broker.Config.Types.{is_preset, Config, Issuer}
use gh_token_broker.Base.Map.{lookup, insert}
use gh_token_broker.Config.Defaults.{apply_defaults, default_issuer}
use gh_token_broker.Config.Sound.{IsValid, validate-IsValid}
use gh_token_broker.Auth.Identity.{Identity}
use gh_token_broker.Auth.Tests.{at_second}
use gh_token_broker.Policy.Engine.{
  Engine, evaluate, merge_permissions, covers_permissions, eval_bool,
}
use gh_token_broker.Policy.Promise.Tests.{cel, env, listed_text, read_contents, read_contents-IsMap}
use gh_token_broker.Policy.Condition.Tests.{listed}
use gh_token_broker.Policy.Condition.Evaluator.{run}
use gh_token_broker.GithubApp.Tests.{github, answers}
use gh_token_broker.Server.Handler.{
  audit_allow, check_form, on_decision, on_form, on_identity, on_mint, on_owner, on_resources,
  on_scope, on_token, token_response, Server, handle_token,
}
use gh_token_broker.Server.Fields.{cut_last, fields}
use gh_token_broker.Server.Scope.{decode_scope}
use gh_token_broker.Resource.Parse.{
  owner_of, parse, parse_all, raw_strings, repo_resource, repo_short_names, require_owner,
  require_repo_name,
}
use gh_token_broker.Server.Tests.{good}
use gh_token_broker.Startup.Ready.{IsCaller, IsGrantedCall, started-IsVouched, started-IsSafe}

-- URLs of a host only.
abbrev only_host : Option Str → Option UrlParts
only_host none = none
only_host (some host) = some (record {
  scheme = codes "https";
  host = host;
  has_user = false;
  raw_query = [];
  force_query = false;
  path = [];
})

abbrev urls : UrlLib
urls = record {
  parse = λ raw. only_host (cut_prefix (codes "https://") raw);
  port = λ u. [];
  hostname = λ u. u.host;
  print = λ u. codes "https://" ++ u.host;
  to_lower = λ s. s;
}

abbrev written : Config
written = record {
  server = record { bind = []; issuer = codes "https://broker.example" };
  oidc = record {
    issuers =
        record {
          name = codes "tenant";
          preset = [];
          issuer = codes "https://issuer.example";
          audience = codes "broker";
          algorithms = [];
          max_token_lifetime_seconds = 0;
          claims = codes "project" ∷ [];
          require = (codes "project", codes "7" ∷ []) ∷ [];
          audit_claims = [];
        }
        ∷ [];
    clock_skew_seconds = 0;
  };
  github_app = record { app_id = 7; private_key_path = []; private_key_env = codes "KEY" };
  policy = record { cost_limit = 0; max_repositories = 0 };
  policies =
      record {
        name = codes "listed";
        issuer = codes "tenant";
        condition = listed_text;
        grant = read_contents;
      }
      ∷ [];
}

abbrev docs : Documents
docs = record {
  Failure = Unit {0};
  Raw = Unit {0};
  Doc = Unit {0};
  Compiler = Unit {0};
  Schema = Unit {0};
  read_shape = λ s. none;
  read_raw = λ s. ok tt;
  read_config = λ s. ok written;
  marshal = λ raw. ok [];
  unmarshal = λ s. ok tt;
  add_resource = λ d. ok tt;
  compile = λ c. ok tt;
  check = λ s d. ok tt;
  config_schema = [];
}

abbrev machine : Machine
machine = record {
  Failure = Unit {0};
  read_file = λ path. err tt;
  getenv = λ name. if name == codes "PORT" then [] else codes "given";
  new_apps_transport = λ id pem. ok tt;
  new_github_client = ok tt;
}

abbrev claims : Claims
claims =
    (codes "iss", text (codes "https://issuer.example"))
    ∷ (codes "aud", text (codes "broker"))
    ∷ (codes "exp", at_second 400)
    ∷ (codes "iat", at_second 100)
    ∷ (codes "sub", text (codes "project 7"))
    ∷ (codes "project", text (codes "7"))
    ∷ []

abbrev oidc : Oidc
oidc = record {
  Jws = Unit {0};
  Token = Unit {0};
  Failure = Unit {0};
  parse_signed = λ raw. ok tt;
  unverified_issuer = λ jws. ok (codes "https://issuer.example");
  verify = λ c raw. ok tt;
  claims_of = λ token. ok claims;
  format = λ v. [];
}

abbrev api : AppApi github
api = record {
  get_app = ok (codes "broker");
  list_installations = ok (7 ∷ []);
  get_user = λ url token. ok (record { status = 200; body = tt });
  decode_user = λ body. ok 42;
  decimal = λ n. codes "42";
}

abbrev key_set : Issuer → Outcome (Unit {0}) (Unit {0})
key_set cfg = ok tt

abbrev world : World
world = record {
  docs = docs;
  urls = urls;
  machine = machine;
  cel = cel;
  env = env;
  oidc = oidc;
  gh = github;
  api = api;
  key_set = key_set;
  app = ok (record { name = codes "broker"; permissions = read_contents });
}

abbrev cfg : Config
cfg = record {
  server = record { bind = codes ":8080"; issuer = codes "https://broker.example" };
  oidc = record {
    issuers =
        record {
          name = codes "tenant";
          preset = [];
          issuer = codes "https://issuer.example";
          audience = codes "broker";
          algorithms = codes "RS256" ∷ [];
          max_token_lifetime_seconds = 3600;
          claims = codes "project" ∷ [];
          require = (codes "project", codes "7" ∷ []) ∷ [];
          audit_claims = [];
        }
        ∷ [];
    clock_skew_seconds = 60;
  };
  github_app = written.github_app;
  policy = record { cost_limit = 10_000; max_repositories = 256 };
  policies = written.policies;
}

defaulted : apply_defaults [] written ≡ cfg
unfolding apply_defaults default_issuer is_preset ◌==◌
defaulted = refl

validated : validate urls cfg ≡ ok tt
unfolding validate check_issuers validate_issuer match_issuer_name is_slug_byte is_preset ◌==◌
    parse_issuer_url cut_prefix ends_with cut check_plain each contains check_unique
    check_claim_name check_required lookup sort insert_sorted check_policies check_permissions
    valid_key valid_key_level catalog allows
validated = refl

abbrev registry : Registry
registry = record {
  authenticator = record {
    issuers = map (λ (i : Issuer). (i.issuer, i)) cfg.oidc.issuers;
    skew = 60_000_000_000;
  };
  algs = codes "RS256" ∷ [];
}

abbrev engine : Engine cel
engine = record {
  policies =
      (
        codes "tenant",
        record { name = codes "listed"; condition = listed; grant = read_contents } ∷ [],
      )
      ∷ [];
  max_repositories = 256;
}

abbrev st : Started world
st = record {
  cfg = cfg;
  registry = registry;
  engine = engine;
  identity = record {
    slug = codes "broker";
    bot_id = 42;
    name = codes "broker[bot]";
    email = codes "42+broker[bot]@users.noreply.github.com";
  };
}

registered : new_authenticator (Unit {0}) key_set cfg.oidc.issuers 60_000_000_000 ≡ ok registry
unfolding new_authenticator register_all register add_algorithms lookup insert contains ◌==◌
registered = refl

abbrev from_env : Log → Outcome (StartError world) (Started world)
from_env = start world []

started : from_env [] ≡ ok st
unfolding start load load_from_bytes check_single_issuer_shape validate_schema apply_defaults
    default_issuer validate check_issuers validate_issuer match_issuer_name is_slug_byte is_preset
    ◌==◌ parse_issuer_url cut_prefix ends_with cut check_plain each contains check_unique
    check_claim_name check_required lookup sort insert_sorted check_policies check_permissions
    valid_key valid_key_level catalog allows new_authenticator register_all register add_algorithms
    insert new_engine add_policies add_policy index_issuers append_policy compile check_condition
    match_descendants is_ident caller_claim constrains constrains_by bounds_resource
    github_identity_claims identities_of nodes anchors bounds_caller caller_anchored chain
    condition_warnings identity_claims compared_above compared_in compared_to_literal indexed_claim
    is_request_field is_resource_ref is_string_literal literal_comparison references resources_shape
    string_literal new_client load_private_key validate_app_permissions aggregate_grant_permissions
    raise_entry valid_level level_ord gaps fetch_app_identity identity_token fetch_bot
    mint_installation_token
started = refl

policies_ok : All HasGrant cfg.policies
policies_ok = (read_contents-IsMap, tt)

validate-IsValid_example : IsValid urls cfg
validate-IsValid_example = validate-IsValid urls cfg validated

new_authenticator-IsRegistered_example :
    ((url : Str) (c : Issuer)
      → lookup url registry.authenticator.issuers ≡ some c
      → IsRegistered cfg.oidc.issuers url c)
    × (registry.authenticator.skew ≡ 60_000_000_000)
new_authenticator-IsRegistered_example =
    new_authenticator-IsRegistered (Unit {0}) key_set cfg.oidc.issuers 60_000_000_000 registry
      registered

abbrev caller : Identity
caller = record {
  issuer = codes "tenant";
  issuer_url = codes "https://issuer.example";
  subject = codes "project 7";
  token_id = [];
  claims = (codes "project", codes "7") ∷ [];
  audit_claims = [];
  issued_at = 100_000_000_000;
  expiry = 400_000_000_000;
}

authenticated : (server_of world st 200_000_000_000 0).authenticate (codes "token") ≡ ok caller
unfolding server_of authenticate identity contains insert lookup ◌==◌
authenticated = refl

started-IsVouched_example : IsCaller world st 200_000_000_000 (codes "token") caller
started-IsVouched_example =
    started-IsVouched world st 200_000_000_000 [] [] started 0 (codes "token") caller authenticated

abbrev running : Server cel github (Failure world)
running = server_of world st 200_000_000_000 0

token_posted :
    (handle_token cel github _ running good []).log
    ≡ org_installation (codes "acme")
      ∷ post_token 7 (record { repositories = codes "app" ∷ []; permissions = read_contents })
      ∷ []
unfolding ◌==◌ handle_token on_form on_token check_form on_identity on_resources on_owner on_scope
    on_decision on_mint parse_all parse require_owner require_repo_name repo_resource owner_of
    raw_strings match_owner match_repo cut contains lookup insert decode_scope fields cut_last
    valid_key_level valid_key valid_level level_ord level_name catalog satisfies normalize gaps
    intersect evaluate merge_permissions covers_permissions eval_bool mint mint_kind
    repo_short_names audit_allow token_response resolve mint_scoped_token resolve_installation
    server_of authenticate identity allows run is_ident
token_posted = refl

started-IsSafe_example :
    (calls : Log) × ((handle_token cel github _ running good []).log ≡ [] ++ calls)
    × All (IsGrantedCall world st 200_000_000_000 0 good) calls
started-IsSafe_example =
    started-IsSafe world st 200_000_000_000 [] [] started answers policies_ok 0 good []

lint_iff_example :
    (lint cfg ≡ []) ↔ ((cfg.policies ≢ []) × All (IsLinted cfg.policies) cfg.oidc.issuers)
lint_iff_example = lint_iff cfg
