-- ===== src/Resource/Tests.antt =====
-- Runs of internal/resource on small inputs.
use gh_token_broker.Base.{
  cut, ◌≡◌, ◌↔◌, refl, true, false, [], ◌∷◌, ◌++◌, Str, codes, ◌==◌, ok, err, List,
}
use gh_token_broker.Resource.Pattern.{
  match_owner, match_repo, is_slug_byte, match_words, Words, match_words_iff,
}
use gh_token_broker.Resource.Parse.{
  Resource, require_owner, require_repo_name, parse, parse_all, repo_resource, org_resource,
  owners_differ, not_single, kind_org,
}
use gh_token_broker.Resource.Valid.{
  IsOwner, IsRepoName, IsResource, parse-IsResource, parse-raw, parse-owner_name, require_owner-ok,
  require_repo_name-ok,
}
use gh_token_broker.Resource.Target.{IsTarget, Parses, parse_all_iff}

abbrev pub two_repos : List Str
two_repos = codes "repo:acme/app" ∷ codes "acme/docs.git" ∷ []

abbrev pub two_resources : List Resource
two_resources =
    repo_resource (codes "acme") (codes "app")
    ∷ repo_resource (codes "acme") (codes "docs.git")
    ∷ []

parse_all-two_repos : parse_all two_repos ≡ ok two_resources
unfolding parse_all parse cut ◌==◌ require_owner match_owner require_repo_name match_repo
    repo_resource
parse_all-two_repos = refl

owners-differ :
    parse_all (codes "acme/app" ∷ codes "other/app" ∷ [])
    ≡ err (owners_differ (codes "acme") (codes "other"))
unfolding parse_all parse cut require_owner match_owner require_repo_name ◌==◌ match_repo
    repo_resource
owners-differ = refl

two_orgs : parse_all (codes "org:a" ∷ codes "org:a" ∷ []) ≡ err (not_single kind_org 2)
unfolding parse_all parse cut ◌==◌ require_owner match_owner org_resource
two_orgs = refl

parse-app : parse (codes "acme/app") ≡ ok (repo_resource (codes "acme") (codes "app"))
unfolding parse cut require_owner match_owner require_repo_name ◌==◌ match_repo
parse-app = refl

slug_with_dash : match_words is_slug_byte false (codes "a-b1") ≡ true
unfolding match_words is_slug_byte
slug_with_dash = refl

match_words_iff_example :
    (match_words is_slug_byte false (codes "a-b1") ≡ true) ↔ Words is_slug_byte (codes "a-b1")
unfolding is_slug_byte
match_words_iff_example = match_words_iff is_slug_byte refl (codes "a-b1")

require_owner-acme : require_owner (codes "acme") ≡ ok (codes "acme")
unfolding require_owner match_owner
require_owner-acme = refl

require_repo_name-app : require_repo_name (codes "app") ≡ ok (codes "app")
unfolding require_repo_name ◌==◌ match_repo
require_repo_name-app = refl

app-IsResource : IsResource (repo_resource (codes "acme") (codes "app"))
app-IsResource =
    parse-IsResource (codes "acme/app") (repo_resource (codes "acme") (codes "app")) parse-app

parse-IsResource_example : IsResource (repo_resource (codes "acme") (codes "app"))
parse-IsResource_example =
    parse-IsResource (codes "acme/app") (repo_resource (codes "acme") (codes "app")) parse-app

parse-raw_example :
    parse (repo_resource (codes "acme") (codes "app")).raw
    ≡ ok (repo_resource (codes "acme") (codes "app"))
parse-raw_example = parse-raw app-IsResource

acme-IsOwner : IsOwner (codes "acme")
acme-IsOwner = (require_owner-ok (codes "acme") (codes "acme") require_owner-acme).1

app-IsRepoName : IsRepoName (codes "app")
app-IsRepoName = (require_repo_name-ok (codes "app") (codes "app") require_repo_name-app).1

parse-owner_name_example :
    parse (codes "acme" ++ (b'/' ∷ codes "app")) ≡ ok (repo_resource (codes "acme") (codes "app"))
parse-owner_name_example = parse-owner_name (codes "acme") (codes "app") acme-IsOwner app-IsRepoName

parse_all_iff_example :
    (parse_all two_repos ≡ ok two_resources)
    ↔ (Parses two_repos two_resources × IsTarget two_resources)
parse_all_iff_example = parse_all_iff two_repos two_resources
