-- ===== src/Config/Claims.antt =====
-- internal/config/config.go: the claims of the GitHub preset.
use gh_token_broker.Base.{Bool, true, false, List, [], ◌∷◌, Str, codes, if◌then◌else◌}

abbrev pub table : List (Str × Bool)
table =
    (codes "repository", true)
    ∷ (codes "repository_id", true)
    ∷ (codes "repository_owner", true)
    ∷ (codes "repository_owner_id", true)
    ∷ (codes "job_workflow_ref", false)
    ∷ (codes "workflow_ref", true)
    ∷ (codes "workflow_sha", false)
    ∷ (codes "job_workflow_sha", false)
    ∷ (codes "sha", false)
    ∷ (codes "ref", false)
    ∷ (codes "ref_type", false)
    ∷ (codes "ref_protected", false)
    ∷ (codes "environment", false)
    ∷ (codes "environment_node_id", false)
    ∷ (codes "repository_visibility", false)
    ∷ (codes "runner_environment", false)
    ∷ (codes "enterprise", true)
    ∷ (codes "enterprise_id", true)
    ∷ (codes "issuer_scope", false)
    ∷ (codes "event_name", false)
    ∷ (codes "sub", false)
    ∷ []

-- the loop of `GitHubClaims`
unfoldable pub names_of : List (Str × Bool) → List Str
names_of [] = []
names_of ((name, identity) ∷ rest) = name ∷ names_of rest

-- the loop of `GitHubIdentityClaims`
unfoldable pub identities_of : List (Str × Bool) → List Str
identities_of [] = []
identities_of ((name, identity) ∷ rest) =
    if identity then name ∷ identities_of rest else identities_of rest

unfoldable pub github_claims : List Str
unfolding names_of
github_claims = names_of table

unfoldable pub github_identity_claims : List Str
unfolding identities_of
github_identity_claims = identities_of table

abbrev pub github_audit_claims : List Str
github_audit_claims =
    codes "run_id" ∷ codes "run_number" ∷ codes "run_attempt" ∷ codes "check_run_id" ∷ []
