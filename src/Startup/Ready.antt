-- ===== src/Startup/Ready.antt =====
-- cmd/gh-token-broker/main.go: whom the server of a started broker authenticates, and what it asks
-- GitHub for.
use gh_token_broker.Base.{
  ℕ, ◌+◌, ◌*◌, ◌≤◌, ◌≡◌, ◌++◌, subst, true, List, [], ◌∷◌, Str, ok, length, All, All-map, Some,
  Some-map, inl, inr, any-pick, contains, arith,
}
use gh_token_broker.Config.Types.{Issuer, Policy}
use gh_token_broker.Config.Valid.{IsValidIssuer}
use gh_token_broker.Config.Grants.{HasGrant}
use gh_token_broker.Perm.Scope.{Permissions}
use gh_token_broker.Perm.Rank.{rank}
use gh_token_broker.Resource.Parse.{raw_strings}
use gh_token_broker.Auth.Identity.{Identity}
use gh_token_broker.Auth.Claims.{Claims, second}
use gh_token_broker.Auth.Admitted.{IsAdmitted}
use gh_token_broker.Auth.Authenticate.{authenticate-IsVouched}
use gh_token_broker.Auth.Registry.{new_authenticator-IsRegistered}
use gh_token_broker.Policy.Engine.{CompiledPolicy, Input, vars_for}
use gh_token_broker.Policy.Policies.{HasMap}
use gh_token_broker.Policy.Spec.{matches, permits}
use gh_token_broker.Policy.Evaluate.{policies_of}
use gh_token_broker.Policy.Build.{index_issuers}
use gh_token_broker.Policy.Built.{IsCompiled, ComesFrom, Built-All, Built-HasMap, new_engine-Built}
use gh_token_broker.GithubApp.Client.{
  Call, Log, TokenRequest, org_installation, user_installation, enterprise_installation, post_token,
}
use gh_token_broker.GithubApp.Lookups.{Answers}
use gh_token_broker.Server.Wire.{HttpRequest}
use gh_token_broker.Server.Handler.{handle_token, policy_input}
use gh_token_broker.Server.Safety.{IsAuthorized, IsSafe, handle_token-IsSafe}
use gh_token_broker.Startup.{World, Started, Failure, start, server_of}
use gh_token_broker.Startup.Loaded.{IsReady, start-IsReady}

module _ (w : World) (st : Started w) (received : ℕ) where
  -- An issuer of the loaded configuration vouches for the token.
  pub record IsCaller (raw : Str) (id : Identity) : Type 0 where
    pub issuer : Issuer
    pub listed : Some (λ c. c ≡ issuer) st.cfg.oidc.issuers
    pub valid : IsValidIssuer w.urls issuer
    pub token : w.oidc.Token
    pub claims : Claims
    pub verified : w.oidc.verify issuer raw ≡ ok token
    pub decoded : w.oidc.claims_of token ≡ ok claims
    pub admitted : IsAdmitted issuer (st.cfg.oidc.clock_skew_seconds * second) received claims id
    pub bounded : length raw ≤ 16_384
    pub one_day : id.expiry ≤ id.issued_at + 86_400 * second
    pub fresh : received ≤ id.expiry + 300 * second
    pub past : id.issued_at ≤ received + 300 * second

  -- The policy of the configuration, as it is compiled, matches the resource for the caller and
  -- grants the key at the posted level or above.
  abbrev pub Grants : Identity → Str → Permissions → Str → Policy → Type 0
  Grants id a posted k p =
      (p.issuer ≡ id.issuer)
      × ((q : CompiledPolicy w.cel) × IsCompiled w.cel w.env (index_issuers [] st.cfg.oidc.issuers)
            st.cfg.policy.cost_limit p q
          × (matches w.cel
                (record {
                  caller = id.claims;
                  request = record { resource = a; resources = a ∷ [] };
                })
                q
              ≡ true)
          × (rank posted k ≤ rank p.grant k))

  -- The token request is authorized by an issuer and by policies of the loaded configuration.
  pub record IsGranted (now : ℕ) (req : HttpRequest) (inst_id : ℕ) (body : TokenRequest)
      : Type 0 where
    pub authorized :
        IsAuthorized w.cel w.gh (Failure w) (server_of w st received now) req inst_id body
    pub caller : IsCaller authorized.token authorized.id
    pub granted :
        (a : Str)
        → contains (raw_strings authorized.resources) a ≡ true
        → (k : Str) → Some (Grants authorized.id a body.permissions k) st.cfg.policies

  abbrev pub IsGrantedCall : ℕ → HttpRequest → Call → Type 0
  IsGrantedCall now req (org_installation owner) = Unit
  IsGrantedCall now req (user_installation owner) = Unit
  IsGrantedCall now req (enterprise_installation slug) = Unit
  IsGrantedCall now req (post_token inst_id body) = IsGranted now req inst_id body

  valid_issuer :
      (issuers : List Issuer) (issuer : Issuer)
      → All (IsValidIssuer w.urls) issuers
      → Some (λ c. c ≡ issuer) issuers
      → IsValidIssuer w.urls issuer
  valid_issuer [] issuer h m = absurd m
  valid_issuer (c ∷ rest) issuer (v, h) (inl same) = subst (IsValidIssuer w.urls) same v
  valid_issuer (c ∷ rest) issuer (v, h) (inr m) = valid_issuer rest issuer h m

  compiled-Grants :
      (id : Identity) (a : Str) (posted : Permissions) (k : Str) (ps : List Policy)
      (q : CompiledPolicy w.cel)
      → permits w.cel
          (record { caller = id.claims; request = record { resource = a; resources = a ∷ [] } })
          posted
          k
          q
        ≡ true
      → ComesFrom w.cel w.env
          (index_issuers [] st.cfg.oidc.issuers)
          st.cfg.policy.cost_limit
          id.issuer
          ps
          q
      → Some (Grants id a posted k) ps
  compiled-Grants id a posted k ps q permitted from =
      Some-map ps
        (λ p (same, c).
          let le : rank posted k ≤ rank q.grant k = ground arith in
          (same, (q, c, ground arith, subst (λ g. rank posted k ≤ rank g k) c.granted le)))
        from

  module _ (path : Str) (log : Log) (started : start w path log ≡ ok st) where
    ready : IsReady w st
    ready = start-IsReady w path log st started

    -- If the broker has started and its server authenticates a token, then the token is at most 16
    -- KiB long, an issuer of the loaded configuration, which is valid, vouches for it, and its
    -- claims are admitted for the caller under the configured clock skew; so the token lives at
    -- most one day, and it is neither expired nor issued in the future by more than 300 seconds.
    pub started-IsVouched :
        (now : ℕ) (raw : Str) (id : Identity)
        → (server_of w st received now).authenticate raw ≡ ok id
        → IsCaller raw id
    unfolding server_of
    started-IsVouched now raw id h =
        let v = authenticate-IsVouched w.oidc st.registry.authenticator received raw id h in
        let (known, same_skew) =
          new_authenticator-IsRegistered w.oidc.Failure w.key_set st.cfg.oidc.issuers
            (st.cfg.oidc.clock_skew_seconds * second) st.registry ready.registered in
        let (_, listed) = known v.url v.cfg v.configured in
        let good = valid_issuer st.cfg.oidc.issuers v.cfg ready.valid.issuers listed in
        let admitted =
          subst (λ skew. IsAdmitted v.cfg skew received v.claims id) same_skew v.admitted in
        record {
          issuer = v.cfg;
          listed = listed;
          valid = good;
          token = v.token;
          claims = v.claims;
          verified = v.verified;
          decoded = v.decoded;
          admitted = admitted;
          bounded = v.bounded;
          one_day = omega (arith, admitted.short_lived, good.lifetime.1);
          fresh = omega (arith, admitted.not_expired, ready.valid.skew);
          past = omega (arith, admitted.not_future, ready.valid.skew);
        }

    held_maps :
        All HasGrant st.cfg.policies
        → (i : Input) → All (HasMap w.cel) (policies_of w.cel st.engine i)
    held_maps grants_ok i =
        Built-HasMap w.cel w.env (index_issuers [] st.cfg.oidc.issuers) st.cfg.policy.cost_limit
          i.issuer st.cfg.policies (policies_of w.cel st.engine i) grants_ok
          (new_engine-Built w.cel w.env st.cfg st.engine i.issuer ready.built).0

    authorized-IsGranted :
        (now : ℕ) (req : HttpRequest) (inst_id : ℕ) (body : TokenRequest)
        → IsAuthorized w.cel w.gh (Failure w) (server_of w st received now) req inst_id body
        → IsGranted now req inst_id body
    unfolding server_of
    authorized-IsGranted now req inst_id body h =
        let i = policy_input h.id h.resources in
        let ps = policies_of w.cel st.engine i in
        let from =
          Built-All w.cel w.env (index_issuers [] st.cfg.oidc.issuers) st.cfg.policy.cost_limit
            h.id.issuer st.cfg.policies ps
            (new_engine-Built w.cel w.env st.cfg st.engine h.id.issuer ready.built).0 in
        record {
          authorized = h;
          caller = started-IsVouched now h.token h.id h.authenticated;
          granted = λ a asked k.
              let (q, permitted, source) =
                any-pick (permits w.cel (vars_for w.cel i a) body.permissions k) ps
                  (h.granted a asked k) from in
              compiled-Grants h.id a body.permissions k st.cfg.policies q permitted source;
        }

    safe-IsGranted :
        (now : ℕ) (req : HttpRequest) (c : Call)
        → IsSafe w.cel w.gh (Failure w) (server_of w st received now) req c
        → IsGrantedCall now req c
    safe-IsGranted now req (org_installation owner) h = tt
    safe-IsGranted now req (user_installation owner) h = tt
    safe-IsGranted now req (enterprise_installation slug) h = tt
    safe-IsGranted now req (post_token inst_id body) h = authorized-IsGranted now req inst_id body h

    -- If the broker has started, GitHub answers with permission maps in which no key stands twice,
    -- and the grants of the loaded policies are such maps, then for every request each token
    -- request that the started server sends to GitHub is authorized: an issuer of the loaded
    -- configuration vouches for the caller as in `started-IsVouched`, the resources of the form
    -- parse and have one owner, GitHub has named the installation in an answer to a lookup for this
    -- owner, the request names just the repositories of the resources (none for an organization or
    -- an enterprise, whose token is not limited to repositories), and for every resource and every
    -- key a loaded policy of the caller's issuer, as it was compiled, matches the resource and
    -- grants the key at the posted level or above.
    pub started-IsSafe :
        (answers : Answers w.gh) (grants_ok : All HasGrant st.cfg.policies) (now : ℕ)
        (req : HttpRequest) (calls_before : Log)
        → (calls : Log) × ((handle_token w.cel w.gh _
              (server_of w st received now)
              req
              calls_before).log
            ≡ calls_before ++ calls)
          × All (IsGrantedCall now req) calls
    unfolding server_of
    started-IsSafe answers grants_ok now req calls_before =
        let (calls, same, safe) =
          handle_token-IsSafe w.cel w.gh _ (server_of w st received now) answers
            (held_maps grants_ok) req calls_before in
        (calls, same, All-map calls (safe-IsGranted now req) safe)
