-- ===== src/Policy/Condition/Tests.antt =====
-- Conditions that are accepted, and what follows where they hold.
use gh_token_broker.Base.{
  ◌≡◌, each, contains, ◌⊎◌, inl, inr, refl, sym, ap, Bool, true, false, ◌&&◌, ◌||◌, Option, none,
  some, List, [], ◌∷◌, ◌++◌, Str, codes, ◌==◌, ==_iff, if◌then◌else◌, Outcome, ok, err, ◌>>=◌,
  >>=-eq-ok, Some, All, arith, any, all, Bool-cases,
}
use gh_token_broker.Base.Map.{Map, lookup}
use gh_token_broker.Config.Types.{Issuer, is_preset}
use gh_token_broker.Policy.Condition.Check.{check_condition, identity_claims}
use gh_token_broker.Policy.Condition.Anchored.{
  constrains, constrains_by, bounds_resource, bounds_caller, caller_anchored, anchors, chain,
}
use gh_token_broker.Config.Claims.{github_identity_claims, identities_of}
use gh_token_broker.Policy.Condition.Evaluator.{run, semantics}
use gh_token_broker.Policy.Ast.{
  match_descendants, nodes, Expr, literal, ident, select, call, list, nil, cons, text, equals,
  op_in, add,
}
use gh_token_broker.Policy.Reads.{
  is_ident, compared_to_literal, compared_above, is_resource_ref, is_request_field, compared_in,
  literal_comparison, is_string_literal, string_literal, references, caller_claim, indexed_claim,
}
use gh_token_broker.Policy.Engine.{Vars}
use gh_token_broker.Policy.Condition.Semantics.{truth, word}
use gh_token_broker.Resource.Parse.{Resource, parse}
use gh_token_broker.Policy.Condition.Constrains.{Within, Holding, constrains-Holding}
use gh_token_broker.Policy.Condition.Owner.{IsGithubCaller, caller_anchored-owner}
use gh_token_broker.Policy.Condition.Pinned.{
  ClaimPin, check_condition-constrains, check_condition-caller,
}
use gh_token_broker.Policy.Condition.Literals.{check_condition-literal}

abbrev repository : Str
repository = codes "acme/app"

abbrev pub caller : Map Str
caller = (codes "repository", repository) ∷ (codes "repository_owner", codes "acme") ∷ []

abbrev pub vars : Vars
vars = record {
  caller = caller;
  request = record { resource = codes "repo:acme/app"; resources = codes "repo:acme/app" ∷ [] };
}

abbrev pub resource_ref : Expr
resource_ref = select (ident (codes "request")) (codes "resource") false

abbrev pub quoted : Str → Expr
quoted s = literal (text s)

abbrev pub op : Str → Expr → Expr → Expr
op fn a b = call fn (cons a (cons b nil))

-- "repo:" + caller.repository
abbrev pub anchored : Expr
anchored =
    op add (quoted (codes "repo:")) (select (ident (codes "caller")) (codes "repository") false)

-- request.resource == "repo:" + caller.repository
abbrev pub own_repository : Expr
own_repository = op equals resource_ref anchored

-- request.resource in ["repo:acme/lib", "repo:acme/app"]
abbrev pub listed : Expr
listed =
    op op_in resource_ref
      (list (cons (quoted (codes "repo:acme/lib")) (cons (quoted (codes "repo:acme/app")) nil)))

abbrev pub github : Issuer
github = record {
  name = codes "github";
  preset = codes "github";
  issuer = codes "https://token.actions.githubusercontent.com";
  audience = codes "broker";
  algorithms = codes "RS256" ∷ [];
  max_token_lifetime_seconds = 3600;
  claims = codes "repository" ∷ codes "repository_owner" ∷ [];
  require = [];
  audit_claims = [];
}

abbrev pub tenant : Issuer
tenant = record {
  name = codes "tenant";
  preset = [];
  issuer = codes "https://issuer.example";
  audience = codes "broker";
  algorithms = codes "RS256" ∷ [];
  max_token_lifetime_seconds = 3600;
  claims = codes "project" ∷ [];
  require = (codes "project", codes "7" ∷ []) ∷ [];
  audit_claims = [];
}

own_repository_accepted : check_condition own_repository github ≡ ok tt
unfolding check_condition each match_descendants ◌==◌ is_ident is_preset compared_to_literal
    compared_above is_resource_ref is_request_field compared_in literal_comparison is_string_literal
    string_literal constrains constrains_by references contains github_identity_claims identities_of
    nodes bounds_resource bounds_caller caller_anchored anchors chain identity_claims caller_claim
    indexed_claim
own_repository_accepted = refl

listed_accepted : check_condition listed tenant ≡ ok tt
unfolding check_condition each match_descendants ◌==◌ is_ident is_preset compared_to_literal
    compared_above is_resource_ref is_request_field compared_in literal_comparison is_string_literal
    string_literal constrains constrains_by references contains github_identity_claims identities_of
    nodes bounds_resource bounds_caller caller_anchored anchors chain identity_claims caller_claim
    indexed_claim
listed_accepted = refl

pub own_repository_holds : run own_repository vars ≡ ok (truth true)
unfolding run is_ident ◌==◌ lookup
own_repository_holds = refl

pub listed_holds : run listed vars ≡ ok (truth true)
unfolding run is_ident ◌==◌ lookup
listed_holds = refl

anchored_value_run : run anchored vars ≡ ok (word (codes "repo:acme/app"))
unfolding run is_ident ◌==◌ lookup
anchored_value_run = refl

pub is_caller : IsGithubCaller caller (codes "acme")
unfolding lookup ◌==◌
is_caller = record {
  name = codes "app";
  repository = refl;
  repository_owner = refl;
  plain = (ground arith, (ground arith, (ground arith, (ground arith, tt))));
}

abbrev pub app : Resource
app = record {
  kind = codes "repo";
  owner = codes "acme";
  name = codes "app";
  raw = codes "repo:acme/app";
}

pub parsed : parse (codes "repo:acme/app") ≡ ok app
unfolding parse gh_token_broker.Base.cut ◌==◌ gh_token_broker.Resource.Parse.require_owner
    gh_token_broker.Resource.Pattern.match_owner gh_token_broker.Resource.Parse.require_repo_name
    gh_token_broker.Resource.Pattern.match_repo gh_token_broker.Resource.Parse.repo_resource
parsed = refl

pub tenant_plain : is_preset tenant ≡ false
unfolding is_preset ◌==◌
tenant_plain = refl

anchored_accepted : caller_anchored anchored ≡ true
unfolding caller_anchored anchors chain ◌==◌ caller_claim is_ident string_literal is_string_literal
anchored_accepted = refl

constrains-Holding_example : Holding semantics vars bounds_resource own_repository
unfolding semantics
constrains-Holding_example =
    constrains-Holding semantics vars bounds_resource own_repository
      (check_condition-constrains own_repository github own_repository_accepted).1
      own_repository_holds

caller_anchored-owner_example : app.owner ≡ codes "acme"
unfolding semantics
caller_anchored-owner_example =
    caller_anchored-owner semantics vars anchored (codes "repo:acme/app") (codes "acme") app
      is_caller anchored_accepted anchored_value_run parsed

own_repository_pins :
    ClaimPin semantics vars own_repository (identity_claims github) ⊎ (app.owner ≡ codes "acme")
unfolding semantics
own_repository_pins =
    check_condition-caller semantics caller (codes "repo:acme/app") own_repository github
      (codes "acme") app is_caller refl own_repository_accepted own_repository_holds parsed

listed_writes : Within (quoted (codes "repo:acme/app")) listed
unfolding semantics
listed_writes =
    check_condition-literal semantics caller (codes "repo:acme/app") listed tenant tenant_plain
      listed_accepted listed_holds
