-- ===== src/Config/Tests.antt =====
-- A run of `AggregateGrantPermissions`.
use gh_token_broker.Base.{◌==◌, ◌≡◌, refl, [], ◌∷◌, codes, List}
use gh_token_broker.Perm.Rank.{rank}
use gh_token_broker.Perm.Tests.{asked, granted, issues, contents, asked-IsMap, granted-IsMap}
use gh_token_broker.Config.Types.{Policy}
use gh_token_broker.Config.Grants.{
  raise_entry, aggregate_grant_permissions, highest, rank-aggregate_grant_permissions,
}
use gh_token_broker.Perm.Levels.{level_ord, valid_key, valid_level}
use gh_token_broker.Base.Map.{insert, lookup}
use gh_token_broker.Perm.Catalog.{catalog}

abbrev policies : List Policy
policies =
    record { name = codes "a"; issuer = codes "github"; condition = codes "true"; grant = asked }
    ∷ record {
      name = codes "b";
      issuer = codes "github";
      condition = codes "true";
      grant = granted;
    }
    ∷ []

aggregated :
    aggregate_grant_permissions policies ≡ (contents, codes "write") ∷ (issues, codes "write") ∷ []
unfolding aggregate_grant_permissions raise_entry valid_key lookup catalog ◌==◌ valid_level insert
    level_ord
aggregated = refl

rank-aggregate_grant_permissions_example :
    rank (aggregate_grant_permissions policies) contents ≡ highest contents policies
rank-aggregate_grant_permissions_example =
    rank-aggregate_grant_permissions policies contents (asked-IsMap, (granted-IsMap, tt))
