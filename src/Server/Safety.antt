-- ===== src/Server/Safety.antt =====
-- The end-to-end guarantees of the token endpoint.
use gh_token_broker.Base.{
  ℕ, ◌≡◌, ◌≢◌, refl, sym, ap, subst, ◌∙◌, true, ◌&&◌, some, List, [], ◌∷◌, ◌++◌, Str, codes, leb,
  any, All, All-append, contains, Outcome, ok, err,
}
use mathlib.Core.List.{append-nil, append_assoc}
use gh_token_broker.Perm.Scope.{Permissions}
use gh_token_broker.Perm.Rank.{rank}
use gh_token_broker.Resource.Parse.{Resource, parse_all, raw_strings, repo_short_names}
use gh_token_broker.Policy.Engine.{Cel, Input, Decision, CompiledPolicy, Vars, vars_for}
use gh_token_broker.Policy.Spec.{matches, permits}
use gh_token_broker.Policy.Policies.{HasMap}
use gh_token_broker.Policy.Evaluate.{policies_of, allowed_iff}
use gh_token_broker.GithubApp.Client.{
  GitHub, Installation, Call, Log, TokenRequest, ScopedToken, MintError, mint, org_installation,
  user_installation, enterprise_installation, post_token, insufficient_scope, empty_scope,
}
use gh_token_broker.GithubApp.Lookups.{IsLookup, Answers, IsInstalled, resolve-IsInstalled}
use gh_token_broker.Resource.Target.{parse_all_iff}
use gh_token_broker.Resource.Select.{Selects, repo_short_names-Selects, owner_of-All}
use gh_token_broker.GithubApp.Mint.{IsLeast, MintRun, refused, posted, mint-run}
use gh_token_broker.Auth.Identity.{Identity}
use gh_token_broker.Server.Wire.{Form, HttpRequest, Reply}
use gh_token_broker.Server.Handler.{Server, form_values, handle_token, policy_input, on_mint}
use gh_token_broker.Server.Exchange.{IsExchange, check_form-IsExchange}
use gh_token_broker.Server.RoundTrip.{decode_scope_sound}
use gh_token_broker.Server.Run.{Cleared, Run, stopped, cleared, handle_token-Run}

module _ (cel : Cel) (gh : GitHub) (AuthFailure : Type 0) (s : Server cel gh AuthFailure) where
  -- Why the broker may ask GitHub for the token: the subject token authenticates a caller, the
  -- resources of the form parse and have one owner, whose installation is asked, the request names
  -- just their repositories (none for an organization or an enterprise), and for every resource and
  -- every key some policy of the caller's issuer matches the resource and grants the key at the
  -- posted level or above.
  pub record IsAuthorized (req : HttpRequest) (inst_id : ℕ) (body : TokenRequest) : Type 0 where
    pub form : Form
    pub id : Identity
    pub resources : List Resource
    pub token : Str
    pub given : req.form ≡ some form
    pub exchange : IsExchange form token
    pub authenticated : s.authenticate token ≡ ok id
    pub parsed : parse_all (form_values (codes "resource") form) ≡ ok resources
    pub owner : Str
    pub owned : All (λ r. r.owner ≡ owner) resources
    pub inst : Installation
    pub installed : IsInstalled gh owner inst
    pub same_inst : inst.id ≡ inst_id
    pub restricted : body.repositories ≡ repo_short_names resources
    pub selected : Selects resources body.repositories
    pub nonempty : body.permissions ≢ []
    pub granted :
        (a : Str)
        → contains (raw_strings resources) a ≡ true
        → (k : Str)
        → any
            (permits cel (vars_for cel (policy_input id resources) a) body.permissions k)
            (policies_of cel s.engine (policy_input id resources))
          ≡ true

  abbrev pub IsSafe : HttpRequest → Call → Type 0
  IsSafe req (org_installation owner) = Unit
  IsSafe req (user_installation owner) = Unit
  IsSafe req (enterprise_installation slug) = Unit
  IsSafe req (post_token inst body) = IsAuthorized req inst body

  lookup-IsSafe : (req : HttpRequest) (c : Call) → IsLookup c → IsSafe req c
  lookup-IsSafe req (org_installation owner) h = tt
  lookup-IsSafe req (user_installation owner) h = tt
  lookup-IsSafe req (enterprise_installation slug) h = tt
  lookup-IsSafe req (post_token inst body) h = absurd h

  lookups-AreSafe : (req : HttpRequest) (cs : Log) → All IsLookup cs → All (IsSafe req) cs
  lookups-AreSafe req [] h = tt
  lookups-AreSafe req (c ∷ cs) (p, h) = (lookup-IsSafe req c p, lookups-AreSafe req cs h)

  module _ (id : Identity) (resources : List Resource) (perms : Permissions) (d : Decision) where
    log-on_mint :
        (log : Log) (o : Outcome (MintError gh.Failure) ScopedToken)
        → (on_mint cel gh AuthFailure s id resources perms d (log, o)).log ≡ log
    unfolding on_mint
    log-on_mint log (ok token) = refl
    log-on_mint log (err empty_scope) = refl
    log-on_mint log (err (insufficient_scope owner missing)) = refl
    log-on_mint log (err e) = refl

  permits_of_asked :
      (vars : Vars) (perms posted_perms : Permissions) (k : Str) (ps : List (CompiledPolicy cel))
      → rank posted_perms k ≡ rank perms k
      → any (permits cel vars perms k) ps ≡ true
      → any (permits cel vars posted_perms k) ps ≡ true
  permits_of_asked vars perms posted_perms k ps e h =
      subst
        (λ (r : ℕ).
          any (λ (p : CompiledPolicy cel). matches cel vars p && leb r (rank p.grant k)) ps ≡ true)
        (sym e) h

  module _ (answers : Answers gh)
      (grants_ok : (i : Input) → All (HasMap cel) (policies_of cel s.engine i)) (req : HttpRequest)
      (log : Log) where
    abbrev Extends : Log → Type 0
    Extends after = (calls : Log) × (after ≡ log ++ calls) × All (IsSafe req) calls

    -- The token request of a cleared request is authorized.
    posted-IsAuthorized :
        (form : Form) (id : Identity) (resources : List Resource) (owner : Str)
        (perms : Permissions) (d : Decision) (inst : Installation) (body : TokenRequest)
        → IsInstalled gh owner inst
        → req.form ≡ some form
        → Cleared cel gh AuthFailure s form id resources owner perms d
        → IsLeast resources perms inst body
        → IsAuthorized req inst.id body
    posted-IsAuthorized form id resources owner perms d inst body installed given c least =
        let i = policy_input id resources in
        let required_ok = (decode_scope_sound _ perms c.decoded).0 in
        let covered =
          ((allowed_iff cel s.engine i perms (grants_ok i) required_ok d c.decided).0
            c.allowed).1 in
        let (_, target) = (parse_all_iff _ resources).0 c.parsed in
        record {
          form = form;
          id = id;
          resources = resources;
          token = c.token;
          given = given;
          exchange = check_form-IsExchange form c.token c.checked;
          authenticated = c.authenticated;
          parsed = c.parsed;
          owner = owner;
          owned = owner_of-All resources owner target c.owned;
          inst = inst;
          installed = installed;
          same_inst = refl;
          restricted = least.repositories;
          selected =
              subst (Selects resources) (sym least.repositories)
                (repo_short_names-Selects resources target);
          nonempty = least.nonempty;
          granted = λ a asked k.
              permits_of_asked (vars_for cel i a) perms body.permissions k
                (policies_of cel s.engine i) (least.asked k) ((covered a asked).1 k);
        }

    mint-Extends :
        (form : Form) (id : Identity) (resources : List Resource) (owner : Str)
        (perms : Permissions) (d : Decision)
        (out : Log × Outcome (MintError gh.Failure) ScopedToken)
        → req.form ≡ some form
        → Cleared cel gh AuthFailure s form id resources owner perms d
        → MintRun gh owner resources perms log out
        → Extends out.0
    mint-Extends form id resources owner perms d out given c (refused lookups e plain same) =
        (lookups, ap (λ o. o.0) same, lookups-AreSafe req lookups plain)
    mint-Extends form id resources owner perms d out given c
          (posted kind lookups inst body plain resolved same least) =
        (
          lookups ++ (post_token inst.id body ∷ []),
          same ∙ append_assoc log lookups (post_token inst.id body ∷ []),
          All-append (IsSafe req) lookups (post_token inst.id body ∷ [])
              (lookups-AreSafe req lookups plain)
              (
                posted-IsAuthorized form id resources owner perms d inst body
                    (resolve-IsInstalled gh kind owner log _ inst resolved) given c least,
                tt,
              ),
        )

    Run-Extends : (out : Reply) → Run cel gh AuthFailure s req log out → Extends out.log
    Run-Extends out (stopped st) = ([], st.untouched ∙ sym (append-nil log), tt)
    Run-Extends out (cleared form id resources owner perms d given c same) =
        let m = mint gh owner resources perms log in
        let required_ok = (decode_scope_sound _ perms c.decoded).0 in
        rw (same, log-on_mint id resources perms d m.0 m.1)
          (mint-Extends form id resources owner perms d m given c
            (mint-run gh answers owner resources perms required_ok log))

    -- Let the installations that GitHub answers with and the grants of the policies be maps with no
    -- key twice. Then, whatever the request, `handleToken` appends to the log of calls to GitHub
    -- only lookups of installations and token requests that are authorized: the form asks to
    -- exchange an ID token without an actor, the subject token authenticates a caller, the
    -- resources of the form parse and have one owner, GitHub has named the installation in an
    -- answer to a lookup for this owner, the token request names permissions and just the
    -- repositories of these resources (none for an organization or an enterprise), and for every
    -- resource and every permission key some policy of the caller's issuer matches the resource and
    -- grants the key at the posted level or above.
    pub handle_token-IsSafe :
        (calls : Log) × ((handle_token cel gh AuthFailure s req log).log ≡ log ++ calls)
        × All (IsSafe req) calls
    handle_token-IsSafe = Run-Extends _ (handle_token-Run cel gh AuthFailure s req log)
