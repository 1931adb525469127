-- ===== src/Perm/Tests.antt =====
-- Runs of internal/perm on small permission maps.
use gh_token_broker.Base.{◌≡◌, ◌↔◌, ◌≤◌, ◌<◌, refl, true, some, [], ◌∷◌, Str, codes, ◌==◌}
use gh_token_broker.Base.Map.{IsMap, lookup, insert}
use gh_token_broker.Perm.Catalog.{catalog}
use gh_token_broker.Perm.Levels.{found, valid_key, valid_level, level_ord, level_name}
use gh_token_broker.Perm.Scope.{Permissions, intersect, satisfies, gaps}
use gh_token_broker.Perm.Rank.{rank}
use gh_token_broker.Perm.Intersect.{rank-intersect, minimum, ranks}
use gh_token_broker.Perm.Covers.{satisfies_iff, lookup-gaps_iff}

abbrev pub contents : Str
contents = codes "contents"

abbrev pub issues : Str
issues = codes "issues"

-- What a caller asks for.
abbrev pub asked : Permissions
asked = (contents, codes "read") ∷ (issues, codes "write") ∷ []

-- What is granted: less than `asked` at `issues`, and an entry that is not in the catalog.
abbrev pub granted : Permissions
granted = (issues, codes "read") ∷ (contents, codes "write") ∷ (codes "nonsense", codes "read") ∷ []

pub asked-IsMap : IsMap asked
unfolding lookup ◌==◌
asked-IsMap = (refl, (refl, tt))

pub granted-IsMap : IsMap granted
unfolding lookup ◌==◌
granted-IsMap = (refl, (refl, (refl, tt)))

gaps-asked : gaps asked granted ≡ some ((issues, codes "need write, have read") ∷ [])
unfolding gaps valid_key lookup catalog ◌==◌ valid_level insert level_ord
gaps-asked = refl

intersect-asked :
    intersect (asked ∷ granted ∷ []) ≡ (contents, codes "read") ∷ (issues, codes "read") ∷ []
unfolding intersect valid_key lookup catalog ◌==◌ valid_level insert level_name level_ord
intersect-asked = refl

rank-intersect_example :
    rank (intersect (asked ∷ granted ∷ [])) issues
    ≡ minimum (rank asked issues) (ranks issues (granted ∷ []))
rank-intersect_example = rank-intersect issues asked (granted ∷ []) asked-IsMap (granted-IsMap, tt)

satisfies_iff_example :
    (satisfies asked granted ≡ true) ↔ ((k : Str) → rank asked k ≤ rank granted k)
satisfies_iff_example = satisfies_iff asked granted asked-IsMap granted-IsMap

lookup-gaps_iff_example :
    (found (lookup issues ((issues, codes "need write, have read") ∷ [])) ≡ true)
    ↔ (rank granted issues < rank asked issues)
lookup-gaps_iff_example =
    lookup-gaps_iff asked granted ((issues, codes "need write, have read") ∷ []) issues asked-IsMap
      granted-IsMap gaps-asked
