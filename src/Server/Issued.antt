-- ===== src/Server/Issued.antt =====
-- internal/server/server.go: when `handleToken` hands out a token, and what it says of it.
use gh_token_broker.Base.{
  ◌≡◌, ◌≢◌, ◌↔◌, refl, ap, ◌∙◌, true, false, some, none, List, [], ◌∷◌, Str, codes, All, ok, err,
  Outcome-cases, Bool-cases, Option, ◌==◌, ==_iff, inl, inr, ◌⊎◌,
}
use gh_token_broker.Perm.Scope.{Permissions}
use gh_token_broker.Resource.Parse.{Resource, owner_of, raw_strings}
use gh_token_broker.Resource.Target.{IsTarget, Parses, parse_all_iff}
use gh_token_broker.Policy.Engine.{Cel, Decision, evaluate}
use gh_token_broker.GithubApp.Client.{
  GitHub, Log, ScopedToken, MintError, mint, empty_scope, insufficient_scope,
}
use gh_token_broker.Auth.Identity.{Identity}
use gh_token_broker.Server.Scope.{decode_scope, encode_scope, scope_equal}
use gh_token_broker.Server.Wire.{
  Form, HttpRequest, TokenExchangeResponse, Body, issued, Event, Reply, allow,
  token_type_access_token,
}
use gh_token_broker.Server.Handler.{
  Server, form_values, form_get, is_form, handle_token, on_form, on_token, on_identity,
  on_resources, on_owner, on_scope, on_decision, on_mint, policy_input, audit_deny, audit_allow,
  token_response,
}
use gh_token_broker.Server.Exchange.{IsExchange, check_form-IsExchange, IsExchange-check_form}
use gh_token_broker.Server.Run.{carries_token, IsDenial, Run, stopped, cleared, handle_token-Run}

module _ (cel : Cel) (gh : GitHub) (AuthFailure : Type 0) (s : Server cel gh AuthFailure) where
  -- What a request asks for, and the token that GitHub gives for it.
  pub record Exchange (req : HttpRequest) (log : Log) : Type 0 where
    pub form : Form
    pub raw : Str
    pub id : Identity
    pub resources : List Resource
    pub owner : Str
    pub perms : Permissions
    pub d : Decision
    pub after : Log
    pub token : ScopedToken
    pub encoded : req.media_type ≡ some (codes "application/x-www-form-urlencoded")
    pub given : req.form ≡ some form
    pub exchange : IsExchange form raw
    pub authenticated : s.authenticate raw ≡ ok id
    pub parsed : Parses (form_values (codes "resource") form) resources
    pub target : IsTarget resources
    pub owned : owner_of resources ≡ some owner
    pub decoded : decode_scope (form_get (codes "scope") form) ≡ some perms
    pub decided : evaluate cel s.engine (policy_input id resources) perms ≡ ok d
    pub allowed : d.allowed ≡ true
    pub minted : mint gh owner resources perms log ≡ (after, ok token)

  -- The reply hands out the token of the exchange, and one audit event tells so.
  pub record HandsOut (req : HttpRequest) (log : Log) (x : Exchange req log) (out : Reply)
      : Type 0 where
    pub r : TokenExchangeResponse
    pub e : Event
    pub status : out.response.status ≡ 200
    pub body : out.response.body ≡ issued r
    pub access_token : r.access_token ≡ x.token.token
    pub kind : r.issued_token_type ≡ token_type_access_token
    pub scope : (r.scope ≡ []) ⊎ (r.scope ≡ encode_scope x.token.permissions)
    pub log_after : out.log ≡ x.after
    pub events : out.events ≡ e ∷ []
    pub decision : e.decision ≡ allow
    pub told : e.token_issued ≡ true
    pub identity : e.identity ≡ x.id
    pub matched : e.matched_policies ≡ x.d.matched_policies
    pub asked :
        e.requested_scope ≡ record { targets = raw_strings x.resources; permissions = x.perms }
    pub got :
        e.computed_scope
        ≡ some (record { targets = x.token.repositories; permissions = x.token.permissions })

  -- Either the reply hands out the token of an exchange, or it has no token and no event that
  -- tells of one.
  pub data Audited (req : HttpRequest) (log : Log) (out : Reply) : Type 0 where
    silent :
        ((r : TokenExchangeResponse) → out.response.body ≢ issued r)
        → All IsDenial out.events
        → Audited req log out
    told : (x : Exchange req log) → HandsOut req log x out → Audited req log out

  not_issued : (b : Body) → carries_token b ≡ false → (r : TokenExchangeResponse) → b ≢ issued r
  not_issued b h r = λ e. cc

  response_scope :
      (perms : Permissions) (token : ScopedToken)
      → ((token_response cel gh AuthFailure s perms token).scope ≡ [])
        ⊎ ((token_response cel gh AuthFailure s perms token).scope ≡ encode_scope token.permissions)
  unfolding token_response
  response_scope perms token = elim (Bool-cases (scope_equal perms token.permissions)) [
    | inl same ↦ inl (rw same)
    | inr other ↦ inr (rw other)
  ]

  module _ (req : HttpRequest) (log : Log) where
    Exchange-HandsOut :
        (x : Exchange req log)
        → HandsOut req log x
            (on_mint cel gh AuthFailure s x.id x.resources x.perms x.d (x.after, ok x.token))
    unfolding on_mint audit_allow token_response
    Exchange-HandsOut x = record {
      r = token_response cel gh AuthFailure s x.perms x.token;
      e = audit_allow x.id x.resources x.perms x.d x.token;
      status = refl;
      body = refl;
      access_token = refl;
      kind = refl;
      scope = response_scope x.perms x.token;
      log_after = refl;
      events = refl;
      decision = refl;
      told = refl;
      identity = refl;
      matched = refl;
      asked = refl;
      got = refl;
    }

    silent_failure :
        (id : Identity) (resources : List Resource) (perms : Permissions) (d : Decision)
        (after : Log) (e : MintError gh.Failure)
        → Audited req log (on_mint cel gh AuthFailure s id resources perms d (after, err e))
    unfolding on_mint audit_deny
    silent_failure id resources perms d after empty_scope =
        silent (λ r e. cc) ((refl, refl, refl), tt)
    silent_failure id resources perms d after (insufficient_scope owner missing) =
        silent (λ r e. cc) ((refl, refl, refl), tt)
    silent_failure id resources perms d after e = silent (λ r e. cc) tt

    media_type-form :
        (o : Option Str) → is_form o ≡ true → o ≡ some (codes "application/x-www-form-urlencoded")
    media_type-form none h = cc
    media_type-form (some m) h = ap some ((==_iff m _).0 h)

    Run-Audited :
        (encoded : is_form req.media_type ≡ true) (out : Reply)
        → Run cel gh AuthFailure s req log out
        → Audited req log out
    Run-Audited encoded out (stopped st) =
        silent (not_issued out.response.body st.no_token) st.no_event
    Run-Audited encoded out (cleared form id resources owner perms d given c same) =
        let (parsed, target) = (parse_all_iff _ resources).0 c.parsed in
        elim (Outcome-cases (mint gh owner resources perms log).1) [
          | inl (token, got) ↦
              let x : Exchange req log = record {
                form = form;
                raw = c.token;
                id = id;
                resources = resources;
                owner = owner;
                perms = perms;
                d = d;
                after = (mint gh owner resources perms log).0;
                token = token;
                encoded = media_type-form req.media_type encoded;
                given = given;
                exchange = check_form-IsExchange form c.token c.checked;
                authenticated = c.authenticated;
                parsed = parsed;
                target = target;
                owned = c.owned;
                decoded = c.decoded;
                decided = c.decided;
                allowed = c.allowed;
                minted = λ i. ((mint gh owner resources perms log).0, got i);
              } in
              rw (same, x.minted) (told x (Exchange-HandsOut x))
          | inr (e, failed) ↦
              let minted : mint gh owner resources perms log
                  ≡ ((mint gh owner resources perms log).0, err e) =
                λ i. ((mint gh owner resources perms log).0, failed i) in
              rw (same, minted) (silent_failure id resources perms d _ e)
        ]

    -- For every request, either the reply of `handleToken` is no token response and none of its
    -- audit events reports an issued token; or the request passes every check, the response has
    -- status 200 and hands out the token that `Mint` returned for it, and the only event reports,
    -- for the caller, that a token was issued, with the scope that was asked for and the scope of
    -- the token.
    pub handle_token-Audited : Audited req log (handle_token cel gh AuthFailure s req log)
    unfolding handle_token
    handle_token-Audited = elim (Bool-cases (is_form req.media_type)) [
      | inl good ↦ Run-Audited good _ (handle_token-Run cel gh AuthFailure s req log)
      | inr wrong ↦ rw wrong (silent (λ r e. cc) tt)
    ]

    Exchange-reply :
        (x : Exchange req log)
        → handle_token cel gh AuthFailure s req log
          ≡ on_mint cel gh AuthFailure s x.id x.resources x.perms x.d (x.after, ok x.token)
    unfolding handle_token on_form on_token on_identity on_resources on_owner on_scope on_decision
        ◌==◌
    Exchange-reply x =
        rw
          (
            x.encoded,
            x.given,
            IsExchange-check_form x.form x.raw x.exchange,
            x.authenticated,
            (parse_all_iff (form_values (codes "resource") x.form) x.resources).1
                (x.parsed, x.target),
            x.owned,
            x.decoded,
            x.decided,
            x.allowed,
            x.minted,
          )
          refl

    -- `handleToken` replies with a token response exactly if the request is a form that asks to
    -- exchange an ID token without an actor, the token authenticates a caller, every resource
    -- parses and together they are one target, the scope is well formed, the policies allow it and
    -- `Mint` returns a token.
    pub handle_token-issued_iff :
        ((r : TokenExchangeResponse) × ((handle_token cel gh AuthFailure s req log).response.body
            ≡ issued r))
        ↔ Exchange req log
    handle_token-issued_iff = (
      λ (r, e). elim handle_token-Audited [
        | silent none_issued denials ↦ absurd (none_issued r e)
        | told x out ↦ x
      ],
      λ x.
          let out = Exchange-HandsOut x in
          (out.r, ap (λ o. o.response.body) (Exchange-reply x) ∙ out.body),
    )
