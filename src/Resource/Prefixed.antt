-- ===== src/Resource/Prefixed.antt =====
-- The owner of a resource that is written with its prefix.
use gh_token_broker.Base.{
  ◌≡◌, ◌∷◌, ◌++◌, Str, codes, ◌==◌, cut, cut-append, Without, ok, wrap, wrap-eq-ok, >>=-eq-ok, some,
}
use gh_token_broker.Resource.Parse.{
  Resource, parse, both_parts, in_owner, in_name, invalid_repo, invalid_org, repo_resource,
  org_resource, require_owner, require_repo_name,
}
use gh_token_broker.Resource.Valid.{require_owner-ok}

-- What is read from `repo:<owner>/<rest>` belongs to the owner.
pub parse-repo_owner :
    (owner rest : Str) (r : Resource)
    → Without b'/' owner
    → parse (codes "repo:" ++ (owner ++ (b'/' ∷ rest))) ≡ ok r
    → r.owner ≡ owner
unfolding parse cut ◌==◌ repo_resource
parse-repo_owner owner rest r plain h0 =
    let h = rw (cut-append b'/' owner rest plain) at h0 in
    let raw = codes "repo:" ++ (owner ++ (b'/' ∷ rest)) in
    let ((o, n), e, fin) =
      >>=-eq-ok (wrap (invalid_repo raw) (both_parts (some (owner, rest))))
        (λ (o, n). ok (repo_resource o n)) h in
    let (o', eo, h') =
      >>=-eq-ok (wrap in_owner (require_owner owner)) _ (wrap-eq-ok (invalid_repo raw) _ e) in
    let (n', en, fin') = >>=-eq-ok (wrap in_name (require_repo_name rest)) _ h' in
    let (same, _) = require_owner-ok owner o' (wrap-eq-ok in_owner _ eo) in cc

-- What is read from `org:<owner>` belongs to the owner.
pub parse-org_owner :
    (owner : Str) (r : Resource) → parse (codes "org:" ++ owner) ≡ ok r → r.owner ≡ owner
unfolding parse cut ◌==◌ org_resource
parse-org_owner owner r h =
    let (o, e, fin) =
      >>=-eq-ok (wrap (invalid_org (codes "org:" ++ owner)) (require_owner owner))
        (λ o. ok (org_resource o)) h in
    let (same, _) = require_owner-ok owner o (wrap-eq-ok (invalid_org _) _ e) in cc
