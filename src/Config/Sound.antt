-- ===== src/Config/Sound.antt =====
-- Which configurations `validate` accepts.
use gh_token_broker.Base.{
  ◌≤◌, ◌≡◌, ◌≢◌, ◌⊎◌, inl, inr, refl, true, false, not, ◌&&◌, Option, none, some, List, [], ◌∷◌,
  Str, codes, ==_iff, arith, is_empty, contains, eqb, ltb, ok, wrap, each-All, wrap-eq-ok,
  >>=-eq-ok, reject->>, reject-ok, reject, ◌>>◌, All, All-map,
}
use gh_token_broker.Perm.Levels.{valid_key, valid_key_level}
use gh_token_broker.Perm.Scope.{Permissions}
use gh_token_broker.Config.Types.{Config, Issuer, Policy}
use gh_token_broker.Config.Urls.{UrlParts, UrlLib, not_absolute}
use gh_token_broker.Config.Issuers.{validate_issuer}
use gh_token_broker.Config.Distinct.{Distinct, Unseen, Unseen-cons}
use gh_token_broker.Config.Valid.{IsValidIssuer, validate_issuer-IsValidIssuer, is_empty-ne}
use gh_token_broker.Config.Validate.{
  check_permissions, check_issuers, check_policies, issuer_names, validate, max_clock_skew_limit,
  in_issuer, duplicate_issuer, duplicate_url, duplicate_policy, no_issuers, bad_skew, no_app_id,
  no_key, two_keys, no_server_issuer, bad_server_issuer, unknown_issuer, unknown_key,
  unsupported_level,
}

abbrev pub issuer_urls : List Issuer → List Str
issuer_urls [] = []
issuer_urls (iss ∷ rest) = iss.issuer ∷ issuer_urls rest

abbrev pub policy_names : List Policy → List Str
policy_names [] = []
policy_names (p ∷ rest) = p.name ∷ policy_names rest

-- A grant of catalog keys at levels that they support.
abbrev pub IsGrantable : Permissions → Type 0
IsGrantable perms = All (λ (k, v). (valid_key k ≡ true) × (valid_key_level k v ≡ true)) perms

abbrev pub IsValidPolicy : List Str → Policy → Type 0
IsValidPolicy issuers p = (contains issuers p.issuer ≡ true) × IsGrantable p.grant

pub record IsValid (lib : UrlLib) (cfg : Config) : Type 0 where
  pub some_issuer : cfg.oidc.issuers ≢ []
  pub issuers : All (IsValidIssuer lib) cfg.oidc.issuers
  pub names : Distinct (issuer_names cfg.oidc.issuers)
  pub urls : Distinct (issuer_urls cfg.oidc.issuers)
  pub skew : cfg.oidc.clock_skew_seconds ≤ 300
  pub app_id : cfg.github_app.app_id ≢ 0
  -- exactly one source of the key
  pub one_key :
      ((cfg.github_app.private_key_path ≢ []) × (cfg.github_app.private_key_env ≡ []))
      ⊎ ((cfg.github_app.private_key_path ≡ []) × (cfg.github_app.private_key_env ≢ []))
  pub server :
      (u : UrlParts) × (lib.parse cfg.server.issuer ≡ some u)
      × (u.scheme ≡ codes "https")
      × (u.host ≢ [])
  pub policies : All (IsValidPolicy (issuer_names cfg.oidc.issuers)) cfg.policies
  pub policy_names : Distinct (policy_names cfg.policies)

check_issuers-ok :
    (lib : UrlLib) (names urls : List Str) (issuers : List Issuer)
    → check_issuers lib names urls issuers ≡ ok tt
    → All (IsValidIssuer lib) issuers
      × Unseen names (issuer_names issuers)
      × Distinct (issuer_names issuers)
      × Unseen urls (issuer_urls issuers)
      × Distinct (issuer_urls issuers)
unfolding check_issuers
check_issuers-ok lib names urls [] h = (tt, tt, tt, tt, tt)
check_issuers-ok lib names urls (iss ∷ rest) h0 =
    let (u, good, h1) = >>=-eq-ok (wrap (in_issuer iss.name) (validate_issuer lib iss)) _ h0 in
    let (fresh, h2) = reject->> (contains names iss.name) (duplicate_issuer iss.name) _ h1 in
    let (fresh_url, h3) = reject->> (contains urls iss.issuer) (duplicate_url iss.issuer) _ h2 in
    let (valid, seen, apart, seen_url, apart_url) =
      check_issuers-ok lib (iss.name ∷ names) (iss.issuer ∷ urls) rest h3 in
    let (old, new) = Unseen-cons iss.name names (issuer_names rest) seen in
    let (old_url, new_url) = Unseen-cons iss.issuer urls (issuer_urls rest) seen_url in
    (
      (validate_issuer-IsValidIssuer lib iss (wrap-eq-ok (in_issuer iss.name) _ good), valid),
      (fresh, old),
      (new, apart),
      (fresh_url, old_url),
      (new_url, apart_url),
    )

check_permissions-ok :
    (name : Str) (perms : Permissions) → check_permissions name perms ≡ ok tt → IsGrantable perms
unfolding check_permissions
check_permissions-ok name perms h =
    All-map perms (λ (k, v) checked. entry k v checked) (each-All _ perms h)
  where
    entry :
        (k v : Str)
        → (reject (not (valid_key k)) (unknown_key name k)
            >> reject (not (valid_key_level k v)) (unsupported_level name k v))
          ≡ ok tt
        → (valid_key k ≡ true) × (valid_key_level k v ≡ true)
    entry k v h =
        let (key, h1) = reject->> (not (valid_key k)) (unknown_key name k) _ h in
        let level = reject-ok (not (valid_key_level k v)) (unsupported_level name k v) h1 in
        (ground arith, ground arith)

check_policies-ok :
    (issuers seen : List Str) (ps : List Policy)
    → check_policies issuers seen ps ≡ ok tt
    → All (IsValidPolicy issuers) ps × Unseen seen (policy_names ps) × Distinct (policy_names ps)
unfolding check_policies
check_policies-ok issuers seen [] h = (tt, tt, tt)
check_policies-ok issuers seen (p ∷ ps) h0 =
    let (fresh, h1) = reject->> (contains seen p.name) (duplicate_policy p.name) _ h0 in
    let (known, h2) =
      reject->> (not (contains issuers p.issuer)) (unknown_issuer p.name p.issuer) _ h1 in
    let (u, grants, h3) = >>=-eq-ok (check_permissions p.name p.grant) _ h2 in
    let (valid, unseen, apart) = check_policies-ok issuers (p.name ∷ seen) ps h3 in
    let (old, new) = Unseen-cons p.name seen (policy_names ps) unseen in
    (
      ((ground arith, check_permissions-ok p.name p.grant grants), valid),
      (fresh, old),
      (new, apart),
    )

one_key_of :
    (path env : Str)
    → (is_empty path && is_empty env) ≡ false
    → (not (is_empty path) && not (is_empty env)) ≡ false
    → ((path ≢ []) × (env ≡ [])) ⊎ ((path ≡ []) × (env ≢ []))
one_key_of [] [] h g = absurd (cc h)
one_key_of [] (c ∷ env) h g = inr (refl, λ e. cc e)
one_key_of (c ∷ path) [] h g = inl ((λ e. cc e), refl)
one_key_of (c ∷ path) (d ∷ env) h g = absurd (cc g)

absolute_of :
    (o : Option UrlParts)
    → not_absolute o ≡ false
    → (u : UrlParts) × (o ≡ some u) × (u.scheme ≡ codes "https") × (u.host ≢ [])
absolute_of none h = absurd (cc h)
absolute_of (some u) h =
    (u, refl, ground (arith, ==_iff u.scheme (codes "https")), is_empty-ne u.host (ground arith))

-- If `validate` accepts a configuration, then it has an issuer, every issuer is valid, no two
-- issuers share a name or a URL, the skew is at most 300 seconds, the app id is not zero, exactly
-- one source of the key is given, the broker's own URL is an absolute https URL, no two policies
-- share a name, and every policy refers to a configured issuer and grants only catalog keys at
-- levels that they support.
pub validate-IsValid : (lib : UrlLib) (cfg : Config) → validate lib cfg ≡ ok tt → IsValid lib cfg
unfolding validate
validate-IsValid lib cfg h0 =
    let (full, h1) = reject->> (is_empty cfg.oidc.issuers) no_issuers _ h0 in
    let (u2, issuers, h2) = >>=-eq-ok (check_issuers lib [] [] cfg.oidc.issuers) _ h1 in
    let (skew, h3) =
      reject->> (ltb max_clock_skew_limit cfg.oidc.clock_skew_seconds) bad_skew _ h2 in
    let (app, h4) = reject->> (eqb cfg.github_app.app_id 0) no_app_id _ h3 in
    let (key, h5) =
      reject->>
        (is_empty cfg.github_app.private_key_path && is_empty cfg.github_app.private_key_env) no_key
        _ h4 in
    let (keys, h6) =
      reject->>
        (not (is_empty cfg.github_app.private_key_path)
          && not (is_empty cfg.github_app.private_key_env))
        two_keys _ h5 in
    let (given, h7) = reject->> (is_empty cfg.server.issuer) no_server_issuer _ h6 in
    let (absolute, h8) =
      reject->> (not_absolute (lib.parse cfg.server.issuer)) bad_server_issuer _ h7 in
    let (valid, _, names, _, urls) = check_issuers-ok lib [] [] cfg.oidc.issuers issuers in
    let (policies, _, policy_names) =
      check_policies-ok (issuer_names cfg.oidc.issuers) [] cfg.policies h8 in
    record {
      some_issuer = is_empty-ne cfg.oidc.issuers full;
      issuers = valid;
      names = names;
      urls = urls;
      skew = ground arith;
      app_id = λ e. ground arith;
      one_key = one_key_of cfg.github_app.private_key_path cfg.github_app.private_key_env key keys;
      server = absolute_of (lib.parse cfg.server.issuer) absolute;
      policies = policies;
      policy_names = policy_names;
    }
