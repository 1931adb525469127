-- ===== src/Policy/Tests.antt =====
-- Runs of `Evaluate` with an evaluator whose programs are resource names: a policy matches the
-- resource that it names.
use gh_token_broker.Base.{
  ◌≡◌, ◌↔◌, ◌≢◌, ◌<◌, max, refl, subst, Bool, true, false, some, [], ◌∷◌, Str, codes, ◌==◌, ok, err,
  List, All, contains,
}
use gh_token_broker.Base.Map.{lookup, insert}
use gh_token_broker.Base.Sort.{sort}
use gh_token_broker.Perm.Catalog.{catalog}
use gh_token_broker.Perm.Levels.{valid_key, valid_level, level_ord}
use gh_token_broker.Perm.Scope.{normalize, satisfies}
use gh_token_broker.Perm.Rank.{rank, IsCanonical, normalize-IsCanonical}
use gh_token_broker.Perm.Tests.{asked, granted, contents, issues, asked-IsMap, granted-IsMap}
use gh_token_broker.Policy.Engine.{
  eval_bool, Cel, CompiledPolicy, Engine, Input, Decision, Trace, evaluate, eval_policies,
  merge_permissions, covers_permissions, vars_for, too_many_resources,
}
use gh_token_broker.Policy.Merge.{rank-merge_permissions}
use gh_token_broker.Policy.Spec.{IsCovered}
use gh_token_broker.Policy.Policies.{HasMap, Traced, eval_policies-Traced}
use gh_token_broker.Policy.Resources.{top}
use gh_token_broker.Policy.Evaluate.{
  policies_of, evaluate-err_iff, uncovered_iff, rank-grants, allowed_iff,
}

abbrev pub cel : Cel
cel = record {
  Program = Str;
  Value = Bool;
  Failure = Unit {0};
  eval = λ p v. ok (p == v.request.resource);
  as_bool = some;
}

abbrev pub app : Str
app = codes "repo:acme/app"

abbrev pub docs : Str
docs = codes "repo:acme/docs"

abbrev pub read_app : CompiledPolicy cel
read_app = record { name = codes "read-app"; condition = app; grant = granted }

abbrev pub write_app : CompiledPolicy cel
write_app = record {
  name = codes "write-app";
  condition = app;
  grant = (issues, codes "write") ∷ [];
}

abbrev pub issuer : Str
issuer = codes "github"

abbrev pub engine : Engine cel
engine = record { policies = (issuer, read_app ∷ write_app ∷ []) ∷ []; max_repositories = 2 }

abbrev pub asking : List Str → Input
asking resources = record {
  issuer = issuer;
  caller = [];
  request = record { resource = []; resources = resources };
}

abbrev decision : Decision
decision = record {
  allowed = true;
  matched_policies = codes "read-app" ∷ codes "write-app" ∷ [];
  skipped_policies = [];
  grants = (app, (issues, codes "write") ∷ (contents, codes "write") ∷ []) ∷ [];
  uncovered_resources = [];
}

decided : evaluate cel engine (asking (app ∷ [])) asked ≡ ok decision
unfolding evaluate lookup sort insert ◌==◌ eval_bool covers_permissions merge_permissions normalize
    valid_key catalog valid_level satisfies level_ord
decided = refl

docs_uncovered :
    evaluate cel engine (asking (app ∷ docs ∷ [])) asked
    ≡ ok (record {
      allowed = false;
      matched_policies = codes "read-app" ∷ codes "write-app" ∷ [];
      skipped_policies = [];
      grants = (app, (issues, codes "write") ∷ (contents, codes "write") ∷ []) ∷ (docs, []) ∷ [];
      uncovered_resources = docs ∷ [];
    })
unfolding evaluate lookup sort insert ◌==◌ eval_bool covers_permissions merge_permissions normalize
    valid_key catalog valid_level satisfies level_ord
docs_uncovered = refl

pub policies_ok : All (HasMap cel) (policies_of cel engine (asking (app ∷ [])))
unfolding lookup ◌==◌
policies_ok = (granted-IsMap, ((refl, tt), tt))

abbrev app_only : List Str
app_only = app ∷ []

allowed_iff_example : (decision.allowed ≡ true) ↔ (
    (app_only ≢ [])
    × ((a : Str)
        → contains app_only a ≡ true
        → IsCovered cel
            (vars_for cel (asking app_only) a)
            (policies_of cel engine (asking app_only))
            asked))
allowed_iff_example =
    allowed_iff cel engine (asking app_only) asked policies_ok asked-IsMap decision decided

uncovered_iff_example : (contains decision.uncovered_resources docs ≡ true) ↔ (
    (contains app_only docs ≡ true)
    × (¬ IsCovered cel
        (vars_for cel (asking app_only) docs)
        (policies_of cel engine (asking app_only))
        asked))
uncovered_iff_example =
    uncovered_iff cel engine (asking app_only) asked policies_ok asked-IsMap decision decided docs

rank-grants_example :
    rank ((issues, codes "write") ∷ (contents, codes "write") ∷ []) contents
    ≡ top cel
        (policies_of cel engine (asking app_only))
        (asking app_only)
        asked
        policies_ok
        app
        contents
unfolding lookup ◌==◌
rank-grants_example =
    rank-grants cel engine (asking app_only) asked policies_ok asked-IsMap decision decided app
      ((issues, codes "write") ∷ (contents, codes "write") ∷ []) refl contents

evaluate-err_iff_example :
    (evaluate cel engine (asking (app ∷ docs ∷ app ∷ [])) asked ≡ err (too_many_resources 3 2))
    ↔ ((2 < 3) × (too_many_resources 3 2 ≡ too_many_resources 3 2))
evaluate-err_iff_example =
    evaluate-err_iff cel engine (asking (app ∷ docs ∷ app ∷ [])) asked (too_many_resources 3 2)

asked-IsCanonical : IsCanonical asked
unfolding normalize valid_key lookup catalog ◌==◌ valid_level insert
asked-IsCanonical = subst IsCanonical normal (normalize-IsCanonical asked asked-IsMap)
  where
    normal : normalize asked ≡ asked
    normal = refl

rank-merge_permissions_example :
    rank (merge_permissions asked granted) contents
    ≡ max (rank asked contents) (rank granted contents)
rank-merge_permissions_example =
    rank-merge_permissions asked granted asked-IsMap asked-IsCanonical granted-IsMap contents

abbrev fresh : Trace cel
fresh = record { granted = []; covered = false; matched = []; skipped = [] }

eval_policies-Traced_example :
    Traced cel
      (vars_for cel (asking app_only) app)
      fresh
      (eval_policies cel (vars_for cel (asking app_only) app) fresh (read_app ∷ write_app ∷ []))
      (read_app ∷ write_app ∷ [])
unfolding lookup ◌==◌
eval_policies-Traced_example =
    eval_policies-Traced cel (vars_for cel (asking app_only) app) fresh (read_app ∷ write_app ∷ [])
      tt (λ k v e. cc) policies_ok
