-- ===== src/Config/Grants.antt =====
-- internal/config/config.go: `AggregateGrantPermissions`, the highest level of every permission that
-- some policy grants. The broker checks at its start that the GitHub App has all of them.
use gh_token_broker.Base.{
  ℕ, max, ◌≡◌, Bool, true, not, ◌||◌, Option, none, some, List, [], ◌∷◌, Str, ◌==◌, ==_iff,
  if◌then◌else◌, ltb, All, arith,
}
use gh_token_broker.Base.Map.{IsMap, lookup, insert, lookup-insert, lookup-nil, insert-IsMap}
use gh_token_broker.Config.Types.{Policy}
use gh_token_broker.Perm.Levels.{valid_key, valid_level, level_ord, valid_level_iff}
use gh_token_broker.Perm.Scope.{Permissions}
use gh_token_broker.Perm.Rank.{rank}

abbrev pub is_higher : Str → Option Str → Bool
is_higher v none = true
is_higher v (some existing) = ltb (level_ord existing) (level_ord v)

-- one round of the inner loop
unfoldable pub raise_entry : Str → Str → Permissions → Permissions
raise_entry k v agg =
    if not (valid_key k) || not (valid_level v)
    then agg
    else if is_higher v (lookup k agg)
    then insert k v agg
    else agg

-- the inner loop
unfoldable pub add_grant : Permissions → Permissions → Permissions
add_grant agg [] = agg
add_grant agg ((k, v) ∷ rest) = add_grant (raise_entry k v agg) rest

-- the outer loop
unfoldable pub add_policies : Permissions → List Policy → Permissions
unfolding add_grant
add_policies agg [] = agg
add_policies agg (p ∷ ps) = add_policies (add_grant agg p.grant) ps

unfoldable pub aggregate_grant_permissions : List Policy → Permissions
unfolding add_policies
aggregate_grant_permissions policies = add_policies [] policies

-- The highest rank that a policy grants at the key.
abbrev pub highest : Str → List Policy → ℕ
highest k [] = 0
highest k (p ∷ ps) = max (rank p.grant k) (highest k ps)

abbrev pub HasGrant : Policy → Type 0
HasGrant p = IsMap p.grant

rank-raise_entry :
    (k v : Str) (agg : Permissions) (j : Str)
    → rank (raise_entry k v agg) j
      ≡ (if k == j then max (rank agg j) (if valid_key k then level_ord v else 0) else rank agg j)
unfolding raise_entry
rank-raise_entry k v agg j = ground (arith, ==_iff k j, lookup-insert k j v agg, valid_level_iff v)

rank-add_grant :
    (agg g : Permissions) (j : Str)
    → IsMap g
    → rank (add_grant agg g) j ≡ max (rank agg j) (rank g j)
unfolding add_grant lookup
rank-add_grant agg [] j h = ground arith
rank-add_grant agg ((k, v) ∷ rest) j (fresh, h) =
    ground
      (arith, rank-add_grant (raise_entry k v agg) rest j h, rank-raise_entry k v agg j, ==_iff k j)

rank-add_policies :
    (agg : Permissions) (ps : List Policy) (j : Str)
    → All HasGrant ps
    → rank (add_policies agg ps) j ≡ max (rank agg j) (highest j ps)
unfolding add_policies
rank-add_policies agg [] j h = omega arith
rank-add_policies agg (p ∷ ps) j (hp, h) =
    omega (arith, rank-add_policies (add_grant agg p.grant) ps j h, rank-add_grant agg p.grant j hp)

-- If the grants of the policies are maps with no key twice, `AggregateGrantPermissions` gives at
-- every key the highest level that a policy grants there.
pub rank-aggregate_grant_permissions :
    (policies : List Policy) (k : Str)
    → All HasGrant policies
    → rank (aggregate_grant_permissions policies) k ≡ highest k policies
unfolding aggregate_grant_permissions
rank-aggregate_grant_permissions policies k h =
    ground (arith, rank-add_policies [] policies k h, lookup-nil {V = Str} k)

raise_entry-IsMap : (k v : Str) (agg : Permissions) → IsMap agg → IsMap (raise_entry k v agg)
unfolding raise_entry
raise_entry-IsMap k v agg h = ground (arith, insert-IsMap k v agg h)

add_grant-IsMap : (agg g : Permissions) → IsMap agg → IsMap (add_grant agg g)
unfolding add_grant
add_grant-IsMap agg [] h = h
add_grant-IsMap agg ((k, v) ∷ rest) h =
    add_grant-IsMap (raise_entry k v agg) rest (raise_entry-IsMap k v agg h)

add_policies-IsMap :
    (agg : Permissions) (ps : List Policy) → IsMap agg → IsMap (add_policies agg ps)
unfolding add_policies
add_policies-IsMap agg [] h = h
add_policies-IsMap agg (p ∷ ps) h =
    add_policies-IsMap (add_grant agg p.grant) ps (add_grant-IsMap agg p.grant h)

pub aggregate_grant_permissions-IsMap :
    (policies : List Policy) → IsMap (aggregate_grant_permissions policies)
unfolding aggregate_grant_permissions
aggregate_grant_permissions-IsMap policies = add_policies-IsMap [] policies tt
