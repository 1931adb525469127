-- ===== src/Perm/Catalog.antt =====
-- internal/perm/catalog_gen.go: the permission keys of GitHub Apps with the levels that each key
-- supports. The table is an ordinary Go map; it stays shut outside this file's own check.
use mathlib.Core.List.{List, [], ◌∷◌}
use gh_token_broker.Base.Text.{Str, codes}
use gh_token_broker.Base.Map.{Map}

abbrev pub read : Str
read = codes "read"

abbrev pub write : Str
write = codes "write"

abbrev pub admin : Str
admin = codes "admin"

unfoldable pub catalog : Map (List Str)
catalog =
    (codes "actions", read ∷ write ∷ [])
    ∷ (codes "actions_variables", read ∷ write ∷ [])
    ∷ (codes "administration", read ∷ write ∷ [])
    ∷ (codes "agent_secrets", read ∷ write ∷ [])
    ∷ (codes "agent_variables", read ∷ write ∷ [])
    ∷ (codes "artifact_metadata", read ∷ write ∷ [])
    ∷ (codes "attestations", read ∷ write ∷ [])
    ∷ (codes "blocking", read ∷ write ∷ [])
    ∷ (codes "checks", read ∷ write ∷ [])
    ∷ (codes "code_quality", read ∷ write ∷ [])
    ∷ (codes "codespaces", read ∷ write ∷ [])
    ∷ (codes "codespaces_lifecycle_admin", read ∷ write ∷ [])
    ∷ (codes "codespaces_metadata", read ∷ [])
    ∷ (codes "codespaces_secrets", write ∷ [])
    ∷ (codes "codespaces_user_secrets", read ∷ write ∷ [])
    ∷ (codes "contents", read ∷ write ∷ [])
    ∷ (codes "copilot_agent_settings", read ∷ [])
    ∷ (codes "custom_properties_for_organizations", read ∷ write ∷ [])
    ∷ (codes "dependabot_secrets", read ∷ write ∷ [])
    ∷ (codes "deployments", read ∷ write ∷ [])
    ∷ (codes "discussions", read ∷ write ∷ [])
    ∷ (codes "email_addresses", read ∷ write ∷ [])
    ∷ (codes "emails", read ∷ write ∷ [])
    ∷ (codes "enterprise_ai_controls", read ∷ write ∷ [])
    ∷ (codes "enterprise_billing", read ∷ write ∷ [])
    ∷ (codes "enterprise_copilot_metrics", read ∷ [])
    ∷ (codes "enterprise_copilot_usage", read ∷ [])
    ∷ (codes "enterprise_credentials", read ∷ write ∷ [])
    ∷ (codes "enterprise_custom_enterprise_roles", read ∷ write ∷ [])
    ∷ (codes "enterprise_custom_properties", read ∷ write ∷ [])
    ∷ (codes "enterprise_custom_properties_for_organizations", read ∷ write ∷ admin ∷ [])
    ∷ (codes "enterprise_innersource_vulnerabilities", write ∷ [])
    ∷ (codes "enterprise_licensing", read ∷ write ∷ [])
    ∷ (codes "enterprise_organization_installation_repositories", read ∷ write ∷ [])
    ∷ (codes "enterprise_organization_installations", read ∷ write ∷ [])
    ∷ (codes "enterprise_scim", read ∷ write ∷ [])
    ∷ (codes "enterprise_teams", read ∷ write ∷ [])
    ∷ (codes "environments", read ∷ write ∷ [])
    ∷ (codes "followers", read ∷ write ∷ [])
    ∷ (codes "gists", write ∷ [])
    ∷ (codes "git_signing_ssh_public_keys", read ∷ write ∷ [])
    ∷ (codes "git_ssh_keys", read ∷ write ∷ [])
    ∷ (codes "gpg_keys", read ∷ write ∷ [])
    ∷ (codes "interaction_limits", read ∷ write ∷ [])
    ∷ (codes "issue_fields", read ∷ write ∷ [])
    ∷ (codes "issue_types", read ∷ write ∷ [])
    ∷ (codes "issues", read ∷ write ∷ [])
    ∷ (codes "keys", read ∷ write ∷ [])
    ∷ (codes "members", read ∷ write ∷ [])
    ∷ (codes "merge_queues", read ∷ write ∷ [])
    ∷ (codes "metadata", read ∷ write ∷ [])
    ∷ (codes "org_copilot_content_exclusion", read ∷ write ∷ [])
    ∷ (codes "organization_actions_variables", read ∷ write ∷ [])
    ∷ (codes "organization_administration", read ∷ write ∷ [])
    ∷ (codes "organization_agent_secrets", read ∷ write ∷ [])
    ∷ (codes "organization_agent_variables", read ∷ write ∷ [])
    ∷ (codes "organization_announcement_banners", read ∷ write ∷ [])
    ∷ (codes "organization_api_insights", read ∷ [])
    ∷ (codes "organization_campaigns", read ∷ write ∷ [])
    ∷ (codes "organization_code_scanning_dismissal_requests", read ∷ write ∷ [])
    ∷ (codes "organization_codespaces", read ∷ write ∷ [])
    ∷ (codes "organization_codespaces_secrets", read ∷ write ∷ [])
    ∷ (codes "organization_codespaces_settings", write ∷ [])
    ∷ (codes "organization_copilot_agent_settings", read ∷ write ∷ [])
    ∷ (codes "organization_copilot_metrics", read ∷ [])
    ∷ (codes "organization_copilot_seat_management", read ∷ write ∷ [])
    ∷ (codes "organization_copilot_spaces", read ∷ write ∷ [])
    ∷ (codes "organization_custom_org_roles", read ∷ write ∷ [])
    ∷ (codes "organization_custom_properties", read ∷ write ∷ admin ∷ [])
    ∷ (codes "organization_custom_roles", read ∷ write ∷ [])
    ∷ (codes "organization_dependabot_dismissal_requests", read ∷ write ∷ [])
    ∷ (codes "organization_dependabot_secrets", read ∷ write ∷ [])
    ∷ (codes "organization_events", read ∷ [])
    ∷ (codes "organization_external_properties_for_repos", read ∷ write ∷ admin ∷ [])
    ∷ (codes "organization_hooks", read ∷ write ∷ [])
    ∷ (codes "organization_network_configurations", read ∷ write ∷ [])
    ∷ (codes "organization_packages", read ∷ write ∷ [])
    ∷ (codes "organization_personal_access_token_requests", read ∷ write ∷ [])
    ∷ (codes "organization_personal_access_tokens", read ∷ write ∷ [])
    ∷ (codes "organization_plan", read ∷ [])
    ∷ (codes "organization_private_registries", read ∷ write ∷ [])
    ∷ (codes "organization_projects", read ∷ write ∷ admin ∷ [])
    ∷ (codes "organization_runner_custom_images", read ∷ write ∷ [])
    ∷ (codes "organization_secret_scanning_bypass_requests", read ∷ write ∷ [])
    ∷ (codes "organization_secrets", read ∷ write ∷ [])
    ∷ (codes "organization_self_hosted_runners", read ∷ write ∷ [])
    ∷ (codes "organization_user_blocking", read ∷ write ∷ [])
    ∷ (codes "packages", read ∷ write ∷ [])
    ∷ (codes "pages", read ∷ write ∷ [])
    ∷ (codes "plan", read ∷ [])
    ∷ (codes "private_repository_invitations", read ∷ [])
    ∷ (codes "profile", write ∷ [])
    ∷ (codes "pull_requests", read ∷ write ∷ [])
    ∷ (codes "repo_secret_scanning_dismissal_requests", read ∷ write ∷ [])
    ∷ (codes "repository_advisories", read ∷ write ∷ [])
    ∷ (codes "repository_creation", write ∷ [])
    ∷ (codes "repository_custom_properties", read ∷ write ∷ [])
    ∷ (codes "repository_hooks", read ∷ write ∷ [])
    ∷ (codes "repository_projects", read ∷ write ∷ admin ∷ [])
    ∷ (codes "secret_scanning_alerts", read ∷ write ∷ [])
    ∷ (codes "secret_scanning_bypass_requests", read ∷ write ∷ [])
    ∷ (codes "secret_scanning_dismissal_requests", read ∷ write ∷ [])
    ∷ (codes "secrets", read ∷ write ∷ [])
    ∷ (codes "security_events", read ∷ write ∷ [])
    ∷ (codes "single_file", read ∷ write ∷ [])
    ∷ (codes "starring", read ∷ write ∷ [])
    ∷ (codes "statuses", read ∷ write ∷ [])
    ∷ (codes "vulnerability_alerts", read ∷ write ∷ [])
    ∷ (codes "watching", read ∷ [])
    ∷ (codes "workflows", write ∷ [])
    ∷ []
