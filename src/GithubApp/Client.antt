-- ===== src/GithubApp/Client.antt =====
-- internal/githubapp/githubapp.go: `Mint` and what it calls. Every request to GitHub is recorded
-- in a log. GitHub, the HTTP clients and the JSON decoder are a parameter, which may answer
-- differently each time: it sees the log of the earlier requests.
use gh_token_broker.Base.{
  ℕ, not, ◌||◌, Option, none, some, List, [], ◌∷◌, ◌++◌, Str, ◌==◌, if◌then◌else◌, eqb, is_empty,
  Outcome, ok, err,
}
use gh_token_broker.Base.Map.{Map}
use gh_token_broker.Perm.Scope.{Permissions, gaps, intersect}
use gh_token_broker.Resource.Parse.{
  Kind, Resource, kind_repo, kind_org, kind_enterprise, repo_short_names,
}

pub record Installation : Type 0 where
  pub id : ℕ
  pub permissions : Permissions

-- The body of a token request; an empty list or map is left out of the JSON.
pub record TokenRequest : Type 0 where
  pub repositories : List Str
  pub permissions : Permissions

-- `expires_at` counts nanoseconds from an origin before every time that Go decodes.
pub record TokenResponse : Type 0 where
  pub token : Str
  pub expires_at : ℕ
  pub permissions : Permissions
  pub repositories : List Str

pub record ScopedToken : Type 0 where
  pub token : Str
  pub expires_at : ℕ
  pub permissions : Permissions
  pub repositories : List Str

pub data Call : Type 0 where
  org_installation user_installation enterprise_installation : Str → Call
  post_token : ℕ → TokenRequest → Call

abbrev pub Log : Type 0
Log = List Call

pub record HttpResponse (Body : Type 0) : Type 0 where
  pub status : ℕ
  pub body : Body

pub record GitHub : Type 1 where
  pub Body : Type 0
  pub Failure : Type 0
  -- `c.apps.Do`: go-github sends the request, checks the status and decodes the body
  pub apps_do : Log → Call → Outcome Failure Installation
  -- `c.httpClient.Do`
  pub http_do : Log → Call → Outcome Failure (HttpResponse Body)
  pub decode_installation : Body → Outcome Failure Installation
  pub decode_token : Body → Outcome Failure TokenResponse

pub data MintError (Failure : Type 0) : Type 0 where
  no_resources : MintError Failure
  unsupported_kind : Kind → MintError Failure
  no_installation : Str → Failure → MintError Failure
  enterprise_status : Str → ℕ → MintError Failure
  request_failed decode_failed : Failure → MintError Failure
  insufficient_scope : Str → Map Str → MintError Failure
  empty_scope : MintError Failure
  token_status : ℕ → MintError Failure

module _ (gh : GitHub) where
  open gh use {Body, Failure, apps_do, http_do, decode_installation, decode_token}

  -- An action on GitHub: the log so far is extended, and there is a result or an error.
  abbrev pub Api : Type 0 → Type 0
  Api A = Log → Log × Outcome (MintError Failure) A

  abbrev pub fail : {A : Type 0} → MintError Failure → Api A
  fail e log = (log, err e)

  abbrev pub installation_or_next :
      Outcome Failure Installation → Api Installation → Api Installation
  installation_or_next (ok inst) next log = (log, ok inst)
  installation_or_next (err e) next log = next log

  abbrev pub last_lookup : Str → Outcome Failure Installation → Api Installation
  last_lookup owner (ok inst) log = (log, ok inst)
  last_lookup owner (err e) log = (log, err (no_installation owner e))

  -- The organization endpoint first, then the user endpoint.
  unfoldable pub resolve_installation : Str → Api Installation
  resolve_installation owner log =
      installation_or_next (apps_do log (org_installation owner))
        (λ log'.
          last_lookup owner (apps_do log' (user_installation owner))
            (log' ++ (user_installation owner ∷ [])))
        (log ++ (org_installation owner ∷ []))

  abbrev pub decoded_installation :
      Outcome Failure Installation → Outcome (MintError Failure) Installation
  decoded_installation (ok inst) = ok inst
  decoded_installation (err e) = err (decode_failed e)

  abbrev pub enterprise_answer :
      Str → Outcome Failure (HttpResponse Body) → Outcome (MintError Failure) Installation
  enterprise_answer slug (err e) = err (request_failed e)
  enterprise_answer slug (ok resp) =
      if not (eqb resp.status 200)
      then err (enterprise_status slug resp.status)
      else decoded_installation (decode_installation resp.body)

  unfoldable pub resolve_enterprise_installation : Str → Api Installation
  resolve_enterprise_installation slug log = (
    log ++ (enterprise_installation slug ∷ []),
    enterprise_answer slug (http_do log (enterprise_installation slug)),
  )

  -- `MintScopedToken` copies the repositories of the answer, `MintInstallationToken` does not.
  abbrev pub scoped : TokenResponse → ScopedToken
  scoped tr = record {
    token = tr.token;
    expires_at = tr.expires_at;
    permissions = tr.permissions;
    repositories = tr.repositories;
  }

  abbrev pub unscoped : TokenResponse → ScopedToken
  unscoped tr = record {
    token = tr.token;
    expires_at = tr.expires_at;
    permissions = tr.permissions;
    repositories = [];
  }

  abbrev pub decoded_token :
      (TokenResponse → ScopedToken)
      → Outcome Failure TokenResponse
      → Outcome (MintError Failure) ScopedToken
  decoded_token f (ok tr) = ok (f tr)
  decoded_token f (err e) = err (decode_failed e)

  abbrev pub token_answer :
      (TokenResponse → ScopedToken)
      → Outcome Failure (HttpResponse Body)
      → Outcome (MintError Failure) ScopedToken
  token_answer f (err e) = err (request_failed e)
  token_answer f (ok resp) =
      if not (eqb resp.status 201)
      then err (token_status resp.status)
      else decoded_token f (decode_token resp.body)

  abbrev pub post : (TokenResponse → ScopedToken) → ℕ → TokenRequest → Api ScopedToken
  post f id body log =
      (log ++ (post_token id body ∷ []), token_answer f (http_do log (post_token id body)))

  unfoldable pub mint_scoped_token : ℕ → List Str → Permissions → Api ScopedToken
  mint_scoped_token id repo_names perms =
      if is_empty repo_names || is_empty perms
      then fail empty_scope
      else post scoped id (record { repositories = repo_names; permissions = perms })

  unfoldable pub mint_installation_token : ℕ → Permissions → Api ScopedToken
  mint_installation_token id perms =
      if is_empty perms
      then fail empty_scope
      else post unscoped id (record { repositories = []; permissions = perms })

  -- the first `switch` of `Mint`
  unfoldable pub resolve : Kind → Str → Api Installation
  unfolding resolve_installation resolve_enterprise_installation
  resolve kind owner =
      if kind == kind_repo || kind == kind_org
      then resolve_installation owner
      else if kind == kind_enterprise
      then resolve_enterprise_installation owner
      else fail (unsupported_kind kind)

  -- the second `switch` of `Mint`
  unfoldable pub mint_kind : Kind → ℕ → List Resource → Permissions → Api ScopedToken
  unfolding mint_scoped_token mint_installation_token
  mint_kind kind id resources perms =
      if kind == kind_repo
      then mint_scoped_token id (repo_short_names resources) perms
      else if kind == kind_org || kind == kind_enterprise
      then mint_installation_token id perms
      else fail (unsupported_kind kind)

  abbrev pub check_gaps : Str → Option (Map Str) → Api ScopedToken → Api ScopedToken
  check_gaps owner none next = next
  check_gaps owner (some missing) next = fail (insufficient_scope owner missing)

  -- What `Mint` does with the resolved installation.
  abbrev pub mint_on :
      Str
      → Kind
      → List Resource
      → Permissions
      → Log × Outcome (MintError Failure) Installation
      → Log × Outcome (MintError Failure) ScopedToken
  mint_on owner kind resources perms (log, err e) = (log, err e)
  mint_on owner kind resources perms (log, ok inst) =
      check_gaps owner (gaps perms inst.permissions)
        (mint_kind kind inst.id resources (intersect (perms ∷ inst.permissions ∷ []))) log

  unfoldable pub mint : Str → List Resource → Permissions → Api ScopedToken
  unfolding resolve mint_kind
  mint owner [] perms log = (log, err no_resources)
  mint owner (r ∷ rs) perms log = mint_on owner r.kind (r ∷ rs) perms (resolve r.kind owner log)
