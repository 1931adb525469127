-- ===== src/Resource/Select.antt =====
-- The repositories that a list of resources selects, and its owner.
use gh_token_broker.Base.{
  ◌≡◌, ◌≢◌, ◌⊎◌, inl, inr, refl, ◌∙◌, some, List, [], ◌∷◌, ◌++◌, map, Str, ◌==◌, ==_iff, length,
  All, All-map, Bool-cases, arith,
}
use gh_token_broker.Resource.Parse.{
  Resource, kind_repo, repo_resource, org_resource, enterprise_resource, repo_short_names, owner_of,
}
use gh_token_broker.Resource.Valid.{IsResource, repo, org, enterprise}
use gh_token_broker.Resource.Target.{IsTarget}

-- Each name is that of the repository at its place, as the canonical form of the resource has it.
abbrev pub AreNames : List Resource → List Str → Type 0
AreNames [] [] = Unit
AreNames (r ∷ rs) (n ∷ ns) =
    (r.kind ≡ kind_repo) × (r.raw ≡ kind_repo ++ (b':' ∷ (r.owner ++ (b'/' ∷ n)))) × AreNames rs ns
AreNames rs ns = ⊥

-- The names select just the repositories of the list; for an organization or an enterprise, which
-- stands alone, there are no names.
abbrev pub Selects : List Resource → List Str → Type 0
Selects rs names =
    AreNames rs names ⊎ ((names ≡ []) × All (λ r. r.kind ≢ kind_repo) rs × (length rs ≡ 1))

repo_raw :
    {r : Resource}
    → IsResource r
    → r.kind ≡ kind_repo
    → r.raw ≡ kind_repo ++ (b':' ∷ (r.owner ++ (b'/' ∷ r.name)))
unfolding repo_resource org_resource enterprise_resource
repo_raw (repo owner name ho hn) k = refl
repo_raw (org owner h) k = absurd (ground arith)
repo_raw (enterprise slug h) k = absurd (ground arith)

map-AreNames :
    (rs : List Resource)
    → All IsResource rs
    → All (λ r. r.kind ≡ kind_repo) rs
    → AreNames rs (map (λ r. r.name) rs)
map-AreNames [] h k = tt
map-AreNames (r ∷ rs) (p, h) (is, k) = (is, repo_raw p is, map-AreNames rs h k)

pub repo_short_names-Selects : (rs : List Resource) → IsTarget rs → Selects rs (repo_short_names rs)
unfolding repo_short_names
repo_short_names-Selects [] h = absurd h
repo_short_names-Selects (r ∷ rs) (h, agree, one) = elim (Bool-cases (r.kind == kind_repo)) [
  | inl is ↦
      let kind = (==_iff r.kind kind_repo).0 is in
      rw is (inl (map-AreNames (r ∷ rs) h (kind, All-map rs (λ c (k, o). k ∙ kind) agree)))
  | inr is_not ↦
      let kind : r.kind ≢ kind_repo = λ e. cc ((==_iff r.kind kind_repo).1 e, is_not) in
      let alone : rs ≡ [] = elim one [ inl e ↦ absurd (kind e) | inr e ↦ e ] in
      rw (is_not, alone) (inr (refl, (kind, tt), refl))
]

-- The owner of the list is the owner of every resource in it.
pub owner_of-All :
    (rs : List Resource) (owner : Str)
    → IsTarget rs
    → owner_of rs ≡ some owner
    → All (λ r. r.owner ≡ owner) rs
unfolding owner_of
owner_of-All [] owner h e = absurd h
owner_of-All (r ∷ rs) owner (h, agree, one) e =
    let own : r.owner ≡ owner = cc in (own, All-map rs (λ c (k, o). o ∙ own) agree)
