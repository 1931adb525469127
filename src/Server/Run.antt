-- ===== src/Server/Run.antt =====
-- How a run of `handleToken` may go: it stops before any request to GitHub, or it passes every check
-- and hands over to `Mint`.
use gh_token_broker.Base.{
  ◌≡◌, refl, Bool, true, false, Option, none, some, List, Str, codes, Bool-cases, inl, inr, Outcome,
  ok, err, arith, All,
}
use gh_token_broker.Perm.Scope.{Permissions}
use gh_token_broker.Resource.Parse
use gh_token_broker.Resource.Parse.{Resource, parse_all, owner_of}
use gh_token_broker.Policy.Engine
use gh_token_broker.Policy.Engine.{Cel, Decision, evaluate}
use gh_token_broker.GithubApp.Client.{GitHub, Log, mint}
use gh_token_broker.Auth.Identity.{Identity}
use gh_token_broker.Server.Scope.{decode_scope}
use gh_token_broker.Server.Wire.{
  Form, HttpRequest, Response, Body, issued, oauth_error, aborted, Event, Reply, refuse, deny,
}
use gh_token_broker.Server.Handler.{
  Server, form_values, form_get, check_form, is_form, on_mint, on_decision, on_scope, on_owner,
  on_resources, on_identity, on_token, on_form, handle_token, policy_input, audit_deny,
}

abbrev pub carries_token : Body → Bool
carries_token (issued t) = true
carries_token (oauth_error code description) = false
carries_token aborted = false

-- The event reports that no token was issued.
abbrev pub IsDenial : Event → Type 0
IsDenial e = (e.decision ≡ deny) × (e.token_issued ≡ false) × (e.computed_scope ≡ none)

-- Nothing was issued, and the log of requests to GitHub is as before.
pub record Stopped (log : Log) (out : Reply) : Type 0 where
  pub untouched : out.log ≡ log
  pub no_token : carries_token out.response.body ≡ false
  pub no_event : All IsDenial out.events

module _ (cel : Cel) (gh : GitHub) (AuthFailure : Type 0) (s : Server cel gh AuthFailure) where
  -- The request passed every check before `Mint`.
  pub record Cleared (form : Form) (id : Identity) (resources : List Resource) (owner : Str)
      (perms : Permissions) (d : Decision) : Type 0 where
    pub token : Str
    pub checked : check_form form ≡ ok token
    pub authenticated : s.authenticate token ≡ ok id
    pub parsed : parse_all (form_values (codes "resource") form) ≡ ok resources
    pub owned : owner_of resources ≡ some owner
    pub decoded : decode_scope (form_get (codes "scope") form) ≡ some perms
    pub decided : evaluate cel s.engine (policy_input id resources) perms ≡ ok d
    pub allowed : d.allowed ≡ true

  pub data Run (req : HttpRequest) (log : Log) (out : Reply) : Type 0 where
    stopped : Stopped log out → Run req log out
    cleared :
        (form : Form) (id : Identity) (resources : List Resource) (owner : Str)
        (perms : Permissions) (d : Decision)
        → req.form ≡ some form
        → Cleared form id resources owner perms d
        → out
          ≡ on_mint cel gh AuthFailure s id resources perms d (mint gh owner resources perms log)
        → Run req log out

  refuse-Run :
      (req : HttpRequest) (log : Log) (r : Response)
      → carries_token r.body ≡ false
      → Run req log (refuse r log)
  refuse-Run req log r h = stopped (record { untouched = refl; no_token = h; no_event = tt })

  check_form-err :
      (form : Form) (r : Response) → check_form form ≡ err r → carries_token r.body ≡ false
  unfolding check_form
  check_form-err form r h = ground arith

  module _ (req : HttpRequest) (log : Log) (form : Form) (given : req.form ≡ some form) where
    module _ (token : Str) (checked : check_form form ≡ ok token) (id : Identity)
        (authenticated : s.authenticate token ≡ ok id) where
      module _ (resources : List Resource)
          (parsed : parse_all (form_values (codes "resource") form) ≡ ok resources) (owner : Str)
          (owned : owner_of resources ≡ some owner) where
        on_decision-Run :
            (perms : Permissions) (o : Outcome Engine.Error Decision)
            → decode_scope (form_get (codes "scope") form) ≡ some perms
            → evaluate cel s.engine (policy_input id resources) perms ≡ o
            → Run req log (on_decision cel gh AuthFailure s id resources owner perms log o)
        unfolding on_decision
        on_decision-Run perms (err e) decoded h = refuse-Run req log _ refl
        on_decision-Run perms (ok d) decoded h = elim (Bool-cases d.allowed) [
          | inl yes_allowed ↦
              cleared form id resources owner perms d given
                (record {
                  token = token;
                  checked = checked;
                  authenticated = authenticated;
                  parsed = parsed;
                  owned = owned;
                  decoded = decoded;
                  decided = h;
                  allowed = yes_allowed;
                })
                (rw yes_allowed)
          | inr denied ↦ rw denied (
              stopped (record {
                untouched = refl;
                no_token = refl;
                no_event = unfold audit_deny in ((refl, refl, refl), tt);
              }))
        ]

        on_scope-Run :
            (o : Option Permissions)
            → decode_scope (form_get (codes "scope") form) ≡ o
            → Run req log (on_scope cel gh AuthFailure s id resources owner log o)
        unfolding on_scope
        on_scope-Run none h = refuse-Run req log _ refl
        on_scope-Run (some perms) h = on_decision-Run perms _ h refl

      on_owner-Run :
          (resources : List Resource) (o : Option Str)
          → parse_all (form_values (codes "resource") form) ≡ ok resources
          → owner_of resources ≡ o
          → Run req log (on_owner cel gh AuthFailure s form id resources log o)
      unfolding on_owner
      on_owner-Run resources none parsed h = refuse-Run req log _ refl
      on_owner-Run resources (some owner) parsed h = on_scope-Run resources parsed owner h _ refl

      on_resources-Run :
          (o : Outcome Parse.Error (List Resource))
          → parse_all (form_values (codes "resource") form) ≡ o
          → Run req log (on_resources cel gh AuthFailure s form id log o)
      unfolding on_resources
      on_resources-Run (err e) h = refuse-Run req log _ refl
      on_resources-Run (ok resources) h = on_owner-Run resources _ h refl

    on_identity-Run :
        (token : Str) (o : Outcome AuthFailure Identity)
        → check_form form ≡ ok token
        → s.authenticate token ≡ o
        → Run req log (on_identity cel gh AuthFailure s form log o)
    unfolding on_identity
    on_identity-Run token (err e) checked h = refuse-Run req log _ refl
    on_identity-Run token (ok id) checked h = on_resources-Run token checked id h _ refl

    on_token-Run :
        (o : Outcome Response Str)
        → check_form form ≡ o
        → Run req log (on_token cel gh AuthFailure s form log o)
    unfolding on_token
    on_token-Run (err r) h = refuse-Run req log r (check_form-err form r h)
    on_token-Run (ok token) h = on_identity-Run token _ h refl

  on_form-Run :
      (req : HttpRequest) (log : Log) (o : Option Form)
      → req.form ≡ o
      → Run req log (on_form cel gh AuthFailure s log o)
  unfolding on_form
  on_form-Run req log none h = refuse-Run req log _ refl
  on_form-Run req log (some form) h = on_token-Run req log form h _ refl

  -- Every run of `handleToken` either stops with no token in its response, no event that says that
  -- one was issued and no call to GitHub, or it passes all checks (form, authentication, resources,
  -- scope, policies) and its reply is what follows `Mint` for the owner, resources and permissions
  -- of the request.
  pub handle_token-Run :
      (req : HttpRequest) (log : Log) → Run req log (handle_token cel gh AuthFailure s req log)
  unfolding handle_token
  handle_token-Run req log = elim (Bool-cases (is_form req.media_type)) [
    | inl good ↦ rw good (on_form-Run req log _ refl)
    | inr wrong ↦ rw wrong (refuse-Run req log _ refl)
  ]
