-- ===== src/GenSchema/Tests.antt =====
-- cmd/gen-schema/main.go at concrete input: a grant that the schema accepts.
use gh_token_broker.Base.{◌<◌, ◌≡◌, ◌↔◌, true, length, ok, codes}
use gh_token_broker.Config.Validate.{check_permissions}
use gh_token_broker.Perm.Tests.{granted}
use gh_token_broker.GenSchema.{permissions_schema}
use gh_token_broker.GenSchema.Accepts.{accepts, accepts-permissions_schema_iff}

accepts-permissions_schema_iff_example :
    (accepts permissions_schema granted ≡ true)
    ↔ ((0 < length granted) × (check_permissions (codes "ci") granted ≡ ok tt))
accepts-permissions_schema_iff_example = accepts-permissions_schema_iff (codes "ci") granted
