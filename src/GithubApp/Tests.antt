-- ===== src/GithubApp/Tests.antt =====
-- A run of `Mint` against a GitHub that answers every lookup with one installation.
use gh_token_broker.Config.Types.{Policy}
use gh_token_broker.Config.Grants.{raise_entry, highest, aggregate_grant_permissions}
use gh_token_broker.Perm.Rank.{rank}
use gh_token_broker.GithubApp.Manifest.{
  format_gaps, Manifest, validate_app_permissions, not_covered, validate-aggregate_iff,
}
use gh_token_broker.Base.{
  err, Str, ◌↔◌, ◌≤◌, ◌++◌, List, ◌≡◌, refl, subst, ok, [], ◌∷◌, codes, Outcome, ok_injective, ◌==◌,
}
use gh_token_broker.Base.Map.{insert, IsMap, lookup}
use gh_token_broker.Perm.Scope.{gaps, intersect, Permissions}
use gh_token_broker.Perm.Tests.{contents, granted, granted-IsMap, asked, asked-IsMap}
use gh_token_broker.Resource.Parse.{repo_short_names, repo_resource}
use gh_token_broker.Resource.Tests.{two_resources}
use gh_token_broker.GithubApp.Client.{
  Installation, TokenResponse, GitHub, mint, org_installation, post_token,
}
use gh_token_broker.GithubApp.Lookups.{Answers}
use gh_token_broker.GithubApp.Mint.{MintRun, mint-run}
use gh_token_broker.Perm.Levels.{level_name, level_ord, valid_key, valid_level}
use gh_token_broker.Perm.Catalog.{catalog}
use gh_token_broker.Base.Sort.{sort}

abbrev pub installation : Installation
installation = record { id = 7; permissions = granted }

abbrev pub read_contents : Permissions
read_contents = (contents, codes "read") ∷ []

abbrev pub token_answer : TokenResponse
token_answer = record {
  token = codes "ghs_1";
  expires_at = 3_600_000_000_000;
  permissions = read_contents;
  repositories = codes "app" ∷ codes "docs.git" ∷ [];
}

abbrev pub github : GitHub
github = record {
  Body = Unit {0};
  Failure = Unit {0};
  apps_do = λ log call. ok installation;
  http_do = λ log call. ok (record { status = 201; body = tt });
  decode_installation = λ body. ok installation;
  decode_token = λ body. ok token_answer;
}

pub answers : Answers github
answers = record { apps_maps = λ log c inst e. same inst e; decoded_maps = λ b inst e. same inst e }
  where
    same :
        (inst : Installation)
        → ◌≡◌ {A = Outcome (Unit {0}) Installation} (ok installation) (ok inst)
        → IsMap inst.permissions
    same inst e = subst (λ (i : Installation). IsMap i.permissions) (ok_injective e) granted-IsMap

pub read_contents-IsMap : IsMap read_contents
unfolding lookup
read_contents-IsMap = (refl, tt)

minted_log :
    (mint github (codes "acme") two_resources read_contents []).0
    ≡ org_installation (codes "acme")
      ∷ post_token 7 (record {
        repositories = codes "app" ∷ codes "docs.git" ∷ [];
        permissions = read_contents;
      })
      ∷ []
unfolding mint ◌==◌ repo_resource gaps valid_key lookup catalog valid_level insert level_ord
    repo_short_names intersect level_name
minted_log = refl

asked_too_much :
    (mint github (codes "acme") two_resources asked []).0 ≡ org_installation (codes "acme") ∷ []
unfolding mint ◌==◌ repo_resource gaps valid_key lookup catalog valid_level insert level_ord
asked_too_much = refl

mint-run_example :
    MintRun github
      (codes "acme")
      two_resources
      read_contents
      []
      (mint github (codes "acme") two_resources read_contents [])
mint-run_example =
    mint-run github answers (codes "acme") two_resources read_contents read_contents-IsMap []

abbrev manifest : Manifest
manifest = record { name = codes "broker"; permissions = granted }

abbrev policies : List Policy
policies =
    record { name = codes "a"; issuer = codes "github"; condition = codes "true"; grant = asked }
    ∷ []

lacking :
    validate_app_permissions (Unit {0}) (ok manifest) (aggregate_grant_permissions policies)
    ≡ err (
        not_covered (
          codes "githubapp: app permissions do not cover policy grants:"
          ++ (10 ∷ codes "  - issues: need write, have read")))
unfolding validate_app_permissions aggregate_grant_permissions raise_entry valid_key lookup catalog
    ◌==◌ valid_level insert gaps level_ord format_gaps sort
lacking = refl

validate-aggregate_iff_example :
    (validate_app_permissions (Unit {0}) (ok manifest) (aggregate_grant_permissions policies)
      ≡ ok tt)
    ↔ ((k : Str) → highest k policies ≤ rank manifest.permissions k)
validate-aggregate_iff_example =
    validate-aggregate_iff (Unit {0}) manifest policies (asked-IsMap, tt) granted-IsMap
