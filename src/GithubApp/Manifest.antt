-- ===== src/GithubApp/Manifest.antt =====
-- internal/githubapp/githubapp.go: `ValidateAppPermissions` and `formatGaps`. The broker runs this
-- at its start on what its policies grant together.
use gh_token_broker.Base.{
  ◌≤◌, ◌≡◌, ◌↔◌, refl, true, Option, none, some, List, [], ◌∷◌, ◌++◌, Str, codes, if◌then◌else◌,
  is_empty, All, arith, Bool-cases, inl, inr, Outcome, ok, err,
}
use gh_token_broker.Base.Map.{Map, IsMap, lookup}
use gh_token_broker.Base.Sort.{sort}
use gh_token_broker.Perm.Scope.{Permissions, gaps}
use gh_token_broker.Perm.Rank.{rank}
use gh_token_broker.Perm.Covers.{gaps-none_iff, satisfies_iff}
use gh_token_broker.Policy.Engine.{keys}
use gh_token_broker.Server.Scope.{or_empty}
use gh_token_broker.Config.Types.{Policy}
use gh_token_broker.Config.Grants.{
  HasGrant, highest, aggregate_grant_permissions, rank-aggregate_grant_permissions,
  aggregate_grant_permissions-IsMap,
}

-- The part of `GET /app` that is read.
pub record Manifest : Type 0 where
  pub name : Str
  pub permissions : Permissions

pub data AppError (Failure : Type 0) : Type 0 where
  fetch_failed : Failure → AppError Failure
  not_covered : Str → AppError Failure

abbrev pub gap_lines : Map Str → List Str → Str
gap_lines missing [] = []
gap_lines missing (k ∷ ks) =
    10
    ∷ (codes "  - " ++ (k ++ (codes ": " ++ (or_empty (lookup k missing) ++ gap_lines missing ks))))

unfoldable pub format_gaps : Str → Map Str → Str
format_gaps header missing = header ++ gap_lines missing (sort (keys missing))

module _ (Failure : Type 0) where
  abbrev pub on_gaps : Option (Map Str) → Outcome (AppError Failure) (Unit {0})
  on_gaps none = ok tt
  on_gaps (some missing) = err (
      not_covered
        (format_gaps (codes "githubapp: app permissions do not cover policy grants:") missing))

  abbrev pub on_app : Permissions → Outcome Failure Manifest → Outcome (AppError Failure) (Unit {0})
  on_app required (err e) = err (fetch_failed e)
  on_app required (ok app) = on_gaps (gaps required app.permissions)

  -- `app` is the answer to `GET /app`, which is asked for only if something is required.
  unfoldable pub validate_app_permissions :
      Outcome Failure Manifest → Permissions → Outcome (AppError Failure) (Unit {0})
  validate_app_permissions app required = if is_empty required then ok tt else on_app required app

  on_gaps_iff : (o : Option (Map Str)) → (on_gaps o ≡ ok tt) ↔ (o ≡ none)
  on_gaps_iff none = (λ h. refl, λ h. refl)
  on_gaps_iff (some missing) = (λ h. cc, λ h. cc)

  rank-empty : (m : Permissions) (k : Str) → is_empty m ≡ true → rank m k ≡ 0
  unfolding lookup
  rank-empty [] k h = ground arith
  rank-empty (e ∷ m) k h = cc

  validate_app_permissions_iff :
      (app : Manifest) (required : Permissions)
      → IsMap required
      → IsMap app.permissions
      → (validate_app_permissions (ok app) required ≡ ok tt)
        ↔ ((k : Str) → rank required k ≤ rank app.permissions k)
  unfolding validate_app_permissions
  validate_app_permissions_iff app required hr ha =
      let (to, from) = satisfies_iff required app.permissions hr ha in
      let (down, up) = gaps-none_iff required app.permissions in
      let (close, open_up) = on_gaps_iff (gaps required app.permissions) in
      elim (Bool-cases (is_empty required)) [
        | inl empty ↦ rw empty (λ h k. omega (arith, rank-empty required k empty), λ h. refl)
        | inr full ↦ rw full (λ h. to (down (close h)), λ h. open_up (up (from h)))
      ]

  -- If the grants of the policies and the permissions of the app are maps with no key twice and
  -- GitHub answers with the app, then `ValidateAppPermissions` on what `AggregateGrantPermissions`
  -- makes of the policies succeeds exactly if at every key the highest level that a policy grants
  -- is at most the level that the app has.
  pub validate-aggregate_iff :
      (app : Manifest) (policies : List Policy)
      → All HasGrant policies
      → IsMap app.permissions
      → (validate_app_permissions (ok app) (aggregate_grant_permissions policies) ≡ ok tt)
        ↔ ((k : Str) → highest k policies ≤ rank app.permissions k)
  validate-aggregate_iff app policies hp ha =
      let required = aggregate_grant_permissions policies in
      let (to, from) =
        validate_app_permissions_iff app required (aggregate_grant_permissions-IsMap policies) ha in
      (
        λ h k. omega (arith, to h k, rank-aggregate_grant_permissions policies k hp),
        λ le. from (λ k. omega (arith, le k, rank-aggregate_grant_permissions policies k hp)),
      )
