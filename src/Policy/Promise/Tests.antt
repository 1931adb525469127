-- ===== src/Policy/Promise/Tests.antt =====
-- An engine built from two policies, and what it promises of the requests that it allows.
use gh_token_broker.Base.{
  ◌≡◌, ◌⊎◌, refl, ap, Bool, true, false, Option, none, some, List, [], ◌∷◌, Str, codes, ◌==◌,
  if◌then◌else◌, Outcome, ok, err, Some, each, contains, All,
}
use gh_token_broker.Base.Map.{IsMap, lookup, insert}
use gh_token_broker.Config.Grants.{HasGrant}
use gh_token_broker.Config.Types.{Config, is_preset}
use gh_token_broker.Perm.Scope.{Permissions}
use gh_token_broker.Policy.Ast.{Expr, nodes, match_descendants}
use gh_token_broker.Policy.Engine.{Cel, Engine, Input, Decision, evaluate, or_nil}
use gh_token_broker.Policy.Build.{
  CelEnv, OutputType, new_engine, add_policies, add_policy, index_issuers, append_policy, compile,
}
use gh_token_broker.Config.Claims.{github_identity_claims, identities_of}
use gh_token_broker.Policy.Reads.{
  is_ident, caller_claim, compared_above, compared_in, compared_to_literal, indexed_claim,
  is_request_field, is_resource_ref, is_string_literal, literal_comparison, references,
  resources_shape, string_literal,
}
use gh_token_broker.Policy.Condition.Anchored.{
  constrains, constrains_by, bounds_resource, anchors, bounds_caller, caller_anchored, chain,
}
use gh_token_broker.Policy.Condition.Check.{check_condition, condition_warnings, identity_claims}
use gh_token_broker.Policy.Built.{Built, new_engine-Built}
use gh_token_broker.Policy.Promise.{
  WritesOut, PinsClaim, IsFaithful, allowed-WritesOut, allowed-PinsClaim,
}
use gh_token_broker.Policy.Condition.Semantics.{Value, truth}
use gh_token_broker.Policy.Condition.Evaluator.{run, semantics}
use gh_token_broker.Policy.Condition.Tests.{
  own_repository, listed, github, tenant, caller, app, is_caller, parsed, tenant_plain,
}

abbrev bool_of : Value → Option Bool
bool_of (truth b) = some b
bool_of _ = none

-- A program is its expression.
abbrev pub cel : Cel
cel = record { Program = Expr; Value = Value; Failure = Unit {0}; eval = run; as_bool = bool_of }

abbrev own_text : Str
own_text = codes "request.resource == \"repo:\" + caller.repository"

abbrev pub listed_text : Str
listed_text = codes "request.resource in [\"repo:acme/lib\", \"repo:acme/app\"]"

-- The two conditions are the only texts that compile.
abbrev pub env : CelEnv cel
env = record {
  Issues = Unit {0};
  new_env = ok tt;
  check = λ s.
      if s == own_text
      then ok (own_repository, OutputType.bool)
      else if s == listed_text
      then ok (listed, OutputType.bool)
      else err tt;
  program = λ e cost_limit. ok e;
}

bool_of-some : (v : Value) → bool_of v ≡ some true → v ≡ truth true
bool_of-some (truth b) h = ap truth (Some-true h)
  where
    Some-true : {c : Bool} → ◌≡◌ {A = Option Bool} (some c) (some true) → c ≡ true
    Some-true e = cc
bool_of-some (Value.word s) h = absurd (cc h)
bool_of-some (Value.items s) h = absurd (cc h)
bool_of-some (Value.opaque s) h = absurd (cc h)

faithful : IsFaithful cel env semantics
unfolding semantics
faithful e c prg x v made ran is = let same : prg ≡ e = cc in let is_true = bool_of-some v is in cc

abbrev pub read_contents : Permissions
read_contents = (codes "contents", codes "read") ∷ []

abbrev cfg : Config
cfg = record {
  server = record { bind = codes ":8080"; issuer = codes "https://broker.example" };
  oidc = record { issuers = github ∷ tenant ∷ []; clock_skew_seconds = 60 };
  github_app = record { app_id = 7; private_key_path = []; private_key_env = codes "KEY" };
  policy = record { cost_limit = 10_000; max_repositories = 256 };
  policies =
      record {
        name = codes "own";
        issuer = codes "github";
        condition = own_text;
        grant = read_contents;
      }
      ∷ record {
        name = codes "listed";
        issuer = codes "tenant";
        condition = listed_text;
        grant = read_contents;
      }
      ∷ [];
}

abbrev engine : Engine cel
engine = record {
  policies =
      (
        codes "github",
        record { name = codes "own"; condition = own_repository; grant = read_contents } ∷ [],
      )
      ∷ (
        codes "tenant",
        record { name = codes "listed"; condition = listed; grant = read_contents } ∷ [],
      )
      ∷ [];
  max_repositories = 256;
}

built : new_engine cel env cfg ≡ ok engine
unfolding new_engine add_policies add_policy lookup index_issuers insert ◌==◌ compile
    check_condition each match_descendants is_ident caller_claim contains is_preset constrains
    constrains_by bounds_resource github_identity_claims identities_of nodes append_policy anchors
    bounds_caller caller_anchored chain condition_warnings identity_claims compared_above
    compared_in compared_to_literal indexed_claim is_request_field is_resource_ref is_string_literal
    literal_comparison references resources_shape string_literal
built = refl

abbrev asking : Str → Input
asking issuer = record {
  issuer = issuer;
  caller = caller;
  request = record { resource = []; resources = app.raw ∷ [] };
}

abbrev decision : Str → Decision
decision policy = record {
  allowed = true;
  matched_policies = policy ∷ [];
  skipped_policies = [];
  grants = (app.raw, read_contents) ∷ [];
  uncovered_resources = [];
}

decided_own :
    evaluate cel engine (asking (codes "github")) read_contents ≡ ok (decision (codes "own"))
unfolding evaluate lookup gh_token_broker.Base.Sort.sort insert ◌==◌
    gh_token_broker.Policy.Engine.eval_bool run is_ident
    gh_token_broker.Policy.Engine.covers_permissions gh_token_broker.Policy.Engine.merge_permissions
    gh_token_broker.Perm.Scope.normalize gh_token_broker.Perm.Levels.valid_key
    gh_token_broker.Perm.Catalog.catalog gh_token_broker.Perm.Levels.valid_level
    gh_token_broker.Perm.Scope.satisfies gh_token_broker.Perm.Levels.level_ord
decided_own = refl

decided_listed :
    evaluate cel engine (asking (codes "tenant")) read_contents ≡ ok (decision (codes "listed"))
unfolding evaluate lookup gh_token_broker.Base.Sort.sort insert ◌==◌
    gh_token_broker.Policy.Engine.eval_bool run is_ident
    gh_token_broker.Policy.Engine.covers_permissions gh_token_broker.Policy.Engine.merge_permissions
    gh_token_broker.Perm.Scope.normalize gh_token_broker.Perm.Levels.valid_key
    gh_token_broker.Perm.Catalog.catalog gh_token_broker.Perm.Levels.valid_level
    gh_token_broker.Perm.Scope.satisfies gh_token_broker.Perm.Levels.level_ord
decided_listed = refl

pub read_contents-IsMap : IsMap read_contents
unfolding lookup
read_contents-IsMap = (refl, tt)

grants_ok : All HasGrant cfg.policies
grants_ok = (read_contents-IsMap, (read_contents-IsMap, tt))

configured_github : lookup (codes "github") (index_issuers [] cfg.oidc.issuers) ≡ some github
unfolding lookup index_issuers insert ◌==◌
configured_github = refl

configured_tenant : lookup (codes "tenant") (index_issuers [] cfg.oidc.issuers) ≡ some tenant
unfolding lookup index_issuers insert ◌==◌
configured_tenant = refl

asked : contains (app.raw ∷ []) app.raw ≡ true
unfolding contains ◌==◌
asked = refl

new_engine-Built_example :
    Built cel env
      (index_issuers [] cfg.oidc.issuers)
      cfg.policy.cost_limit
      (codes "tenant")
      cfg.policies
      (or_nil cel (lookup (codes "tenant") engine.policies))
    × (engine.max_repositories ≡ cfg.policy.max_repositories)
new_engine-Built_example = new_engine-Built cel env cfg engine (codes "tenant") built

allowed-WritesOut_example : Some (WritesOut cel env (asking (codes "tenant")) app.raw) cfg.policies
allowed-WritesOut_example =
    allowed-WritesOut cel env semantics faithful cfg engine built grants_ok
      (asking (codes "tenant")) read_contents read_contents-IsMap tenant configured_tenant
      (decision (codes "listed")) decided_listed refl tenant_plain app.raw asked

allowed-PinsClaim_example :
    Some (PinsClaim cel env (asking (codes "github")) semantics github app.raw) cfg.policies
    ⊎ (app.owner ≡ codes "acme")
allowed-PinsClaim_example =
    allowed-PinsClaim cel env semantics faithful cfg engine built grants_ok
      (asking (codes "github")) read_contents read_contents-IsMap github configured_github
      (decision (codes "own")) decided_own refl refl (codes "acme") is_caller app.raw asked app
      parsed
