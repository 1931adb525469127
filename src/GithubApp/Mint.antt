-- ===== src/GithubApp/Mint.antt =====
-- What `Mint` sends to GitHub: lookups, and then at most one token request, never wider than what
-- was asked for and never wider than the installation.
use gh_token_broker.Base.{
  ◌≤◌, ◌≡◌, ◌≢◌, refl, ◌∙◌, true, false, ◌||◌, List, [], ◌∷◌, ◌++◌, arith, Str, ◌==◌, is_empty, All,
  Bool-cases, Option-cases, inl, inr, Outcome, ok, err, Outcome-cases,
}
use mathlib.Core.List.{append-nil}
use gh_token_broker.Base.Map.{IsMap}
use gh_token_broker.Perm.Scope.{Permissions, gaps, intersect, satisfies}
use gh_token_broker.Perm.Rank.{rank}
use gh_token_broker.Perm.Intersect.{rank-intersect}
use gh_token_broker.Perm.Covers.{gaps-none_iff, satisfies_iff}
use gh_token_broker.Resource.Parse.{
  Kind, Resource, kind_repo, kind_org, kind_enterprise, repo_short_names, starts_repo,
}
use gh_token_broker.GithubApp.Client.{
  Installation, TokenRequest, ScopedToken, Log, GitHub, MintError, post_token, resolve,
  mint_scoped_token, mint_installation_token, mint_kind, mint_on, mint, unsupported_kind,
  empty_scope, no_resources, insufficient_scope,
}
use gh_token_broker.GithubApp.Lookups.{
  IsLookup, Answers, resolve-Looked, resolve-IsInstalled, IsInstalled-IsMap,
}

-- A token request that stays within what was asked for and what the installation grants.
pub record IsLeast (rs : List Resource) (perms : Permissions) (inst : Installation)
    (body : TokenRequest) : Type 0 where
  pub nonempty : body.permissions ≢ []
  pub asked : (k : Str) → rank body.permissions k ≡ rank perms k
  pub ceiling : (k : Str) → rank body.permissions k ≤ rank inst.permissions k
  pub repositories : body.repositories ≡ repo_short_names rs

module _ (gh : GitHub) where
  -- How a run of `Mint` may go, by its final log and its result.
  pub data MintRun (owner : Str) (rs : List Resource) (perms : Permissions) (log : Log)
      (out : Log × Outcome (MintError gh.Failure) ScopedToken) : Type 0 where
    -- Nothing was posted, and there is an error.
    refused :
        (lookups : Log) (e : MintError gh.Failure)
        → All IsLookup lookups
        → out ≡ (log ++ lookups, err e)
        → MintRun owner rs perms log out
    -- One token request was posted, for the installation that the lookups found.
    posted :
        (kind : Kind) (lookups : Log) (inst : Installation) (body : TokenRequest)
        → All IsLookup lookups
        → resolve gh kind owner log ≡ (log ++ lookups, ok inst)
        → out.0 ≡ (log ++ lookups) ++ (post_token inst.id body ∷ [])
        → IsLeast rs perms inst body
        → MintRun owner rs perms log out

  module _ (answers : Answers gh) (owner : Str) (rs : List Resource) (perms : Permissions)
      (perms_ok : IsMap perms) (log lookups : Log) (plain : All IsLookup lookups) (kind : Kind)
      (inst : Installation) (resolved : resolve gh kind owner log ≡ (log ++ lookups, ok inst)) where
    least : Permissions
    least = intersect (perms ∷ inst.permissions ∷ [])

    abbrev body_of : List Str → TokenRequest
    body_of names = record { repositories = names; permissions = least }

    body-IsLeast :
        satisfies perms inst.permissions ≡ true
        → is_empty least ≡ false
        → IsLeast rs perms inst (body_of (repo_short_names rs))
    unfolding least
    body-IsLeast fits full =
        let inst_ok =
          IsInstalled-IsMap gh answers owner inst
            (resolve-IsInstalled gh kind owner log _ inst resolved) in
        let le = (satisfies_iff perms inst.permissions perms_ok inst_ok).0 fits in
        let meet =
          λ (k : Str). rank-intersect k perms (inst.permissions ∷ []) perms_ok (inst_ok, tt) in
        record {
          nonempty = λ e. ground arith;
          asked = λ k. omega (arith, meet k, le k);
          ceiling = λ k. omega (arith, meet k, le k);
          repositories = refl;
        }

    module _ (head : starts_repo rs ≡ (kind == kind_repo)) where
      abbrev Run : Log × Outcome (MintError gh.Failure) ScopedToken → Type 0
      Run out = MintRun owner rs perms log out

      mint_scoped_token-Run :
          satisfies perms inst.permissions ≡ true
          → Run (mint_scoped_token gh inst.id (repo_short_names rs) least (log ++ lookups))
      unfolding mint_scoped_token
      mint_scoped_token-Run fits =
          elim (Bool-cases (is_empty (repo_short_names rs) || is_empty least)) [
            | inl none_left ↦ refused lookups empty_scope plain (rw none_left)
            | inr full ↦
                posted kind lookups inst (body_of (repo_short_names rs)) plain resolved (rw full)
                  (body-IsLeast fits (ground arith))
          ]

      mint_installation_token-Run :
          satisfies perms inst.permissions ≡ true
          → (kind == kind_repo) ≡ false
          → Run (mint_installation_token gh inst.id least (log ++ lookups))
      unfolding mint_installation_token repo_short_names
      mint_installation_token-Run fits other = elim (Bool-cases (is_empty least)) [
        | inl none_left ↦ refused lookups empty_scope plain (rw none_left)
        | inr full ↦
            let names : repo_short_names rs ≡ [] = rw (head ∙ other) in
            posted kind lookups inst (body_of []) plain resolved (rw full)
              (rw names at (body-IsLeast fits full))
      ]

      mint_kind-Run :
          satisfies perms inst.permissions ≡ true
          → Run (mint_kind gh kind inst.id rs least (log ++ lookups))
      unfolding mint_kind
      mint_kind-Run fits = elim (Bool-cases (kind == kind_repo)) [
        | inl b ↦ rw b (mint_scoped_token-Run fits)
        | inr b ↦ elim (Bool-cases (kind == kind_org || kind == kind_enterprise)) [
          | inl c ↦ rw (b, c) (mint_installation_token-Run fits b)
          | inr c ↦ refused lookups (unsupported_kind kind) plain (rw (b, c))
        ]
      ]

      mint_on-Run : Run (mint_on gh owner kind rs perms (log ++ lookups, ok inst))
      unfolding least
      mint_on-Run = elim (Option-cases (gaps perms inst.permissions)) [
        | inl e ↦ rw e (mint_kind-Run ((gaps-none_iff perms inst.permissions).0 e))
        | inr (missing, e) ↦ refused lookups (insufficient_scope owner missing) plain (rw e)
      ]

  mint-nil :
      (owner : Str) (perms : Permissions) (log : Log)
      → mint gh owner [] perms log ≡ (log, err no_resources)
  unfolding mint
  mint-nil owner perms log = refl

  mint-cons :
      (owner : Str) (r : Resource) (rs : List Resource) (perms : Permissions) (log : Log)
      → mint gh owner (r ∷ rs) perms log
        ≡ mint_on gh owner r.kind (r ∷ rs) perms (resolve gh r.kind owner log)
  unfolding mint
  mint-cons owner r rs perms log = refl

  -- If the installations that GitHub answers with and the requested permissions are maps with no
  -- key twice, a run of `Mint` either only looks up installations and returns an error, or looks up
  -- an installation and posts one token request for it. The request names permissions, grants at
  -- every key just the level asked for, no more than the installation has, and names just the
  -- repositories of the resources (none for an organization or an enterprise).
  pub mint-run :
      (answers : Answers gh) (owner : Str) (rs : List Resource) (perms : Permissions)
      → IsMap perms
      → (log : Log) → MintRun owner rs perms log (mint gh owner rs perms log)
  mint-run answers owner [] perms ok_perms log =
      refused [] no_resources tt (rw (mint-nil owner perms log, append-nil log))
  mint-run answers owner (r ∷ rs) perms ok_perms log =
      let looked = resolve-Looked gh r.kind owner log in
      elim (Outcome-cases (resolve gh r.kind owner log).1) [
        | inl (inst, e) ↦
            let found : resolve gh r.kind owner log ≡ (log ++ looked.lookups, ok inst) =
              λ i. (looked.same i, e i) in
            rw (mint-cons owner r rs perms log, found)
              (mint_on-Run answers owner (r ∷ rs) perms ok_perms log looked.lookups looked.plain
                r.kind inst found refl)
        | inr (er, e) ↦
            let failed : resolve gh r.kind owner log ≡ (log ++ looked.lookups, err er) =
              λ i. (looked.same i, e i) in
            refused looked.lookups er looked.plain (rw (mint-cons owner r rs perms log, failed))
      ]
