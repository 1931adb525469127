-- ===== src/Server/Handler.antt =====
-- internal/server/server.go: the handler of `POST /token`. The HTTP layer hands over the parsed media type and form, `none` where Go's
-- parser reports an error. A handler returns its response, the audit events in order and the log
-- of requests to GitHub; the lines of the ordinary logger are left out.
use gh_token_broker.Base.{
  ℕ, ◌-◌, ◌/◌, ◌^◌, min, Bool, true, false, not, ◌&&◌, ◌||◌, Option, none, some, List, [], ◌∷◌,
  ◌++◌, Str, codes, ◌==◌, if◌then◌else◌, leb, is_empty, Outcome, ok, err, ◌>>◌, reject,
}
use gh_token_broker.Base.Map.{lookup}
use gh_token_broker.Perm.Scope.{Permissions}
use gh_token_broker.Resource.Parse
use gh_token_broker.Resource.Parse.{Resource, parse_all, owner_of, raw_strings}
use gh_token_broker.Policy.Engine
use gh_token_broker.Policy.Engine.{Cel, Engine, Decision, evaluate}
use gh_token_broker.GithubApp.Client.{
  GitHub, Log, MintError, ScopedToken, mint, empty_scope, insufficient_scope,
}
use gh_token_broker.Auth.Identity.{Identity}
use gh_token_broker.Server.Scope.{decode_scope, encode_scope, scope_equal}
use gh_token_broker.Server.Wire.{
  invalid_request, unsupported_grant, invalid_grant, invalid_scope, invalid_target, server_error,
  grant_type_token_exchange, token_type_access_token, token_type_id_token, Form, error, refuse,
  HttpRequest, Seconds, TokenExchangeResponse, Response, ScopeSummary, Event, Reply, text,
  resource_error, policy_error, ahead, past, issued, aborted, allow, deny,
}

-- `form[key]`
unfoldable pub form_values : Str → Form → List Str
form_values key form = elim (lookup key form) [ none ↦ [] | some vs ↦ vs ]

abbrev pub first_or_empty : List Str → Str
first_or_empty [] = []
first_or_empty (v ∷ vs) = v

-- `form.Get(key)`
unfoldable pub form_get : Str → Form → Str
unfolding form_values
form_get key form = first_or_empty (form_values key form)

abbrev pub is_form : Option Str → Bool
is_form none = false
is_form (some media_type) = media_type == codes "application/x-www-form-urlencoded"

abbrev pub bad : Str → Response
bad description = error 400 invalid_request (text description)

-- The checks of `handleToken` on the form, up to the subject token.
unfoldable pub check_form : Form → Outcome Response Str
unfolding form_get
check_form form = do
  reject (is_empty (form_get (codes "grant_type") form)) (bad (codes "grant_type is required"))
  reject (not (form_get (codes "grant_type") form == grant_type_token_exchange)) (
      error 400 unsupported_grant
        (text (codes "only " ++ (grant_type_token_exchange ++ codes " is supported"))))
  reject
      (not (is_empty (form_get (codes "actor_token") form))
        || not (is_empty (form_get (codes "actor_token_type") form)))
      (bad (codes "actor_token delegation is not supported"))
  reject
      (is_empty (form_get (codes "subject_token") form)
        || is_empty (form_get (codes "subject_token_type") form))
      (bad (codes "subject_token and subject_token_type are required"))
  reject (not (form_get (codes "subject_token_type") form == token_type_id_token))
      (bad (codes "subject_token_type must be " ++ token_type_id_token))
  reject
      (not (is_empty (form_get (codes "requested_token_type") form))
        && not (form_get (codes "requested_token_type") form == token_type_access_token))
      (bad (codes "requested_token_type must be " ++ token_type_access_token))
  ok (form_get (codes "subject_token") form)

unfoldable pub join_comma : List Str → Str
join_comma [] = []
join_comma (t ∷ []) = t
join_comma (t ∷ u ∷ ts) = t ++ (codes ", " ++ join_comma (u ∷ ts))

unfoldable pub deny_reason : Decision → Str
unfolding join_comma
deny_reason d =
    (if is_empty d.matched_policies
      then codes "no matching policies"
      else codes "combined policy permissions do not cover requested scope")
    ++ (if is_empty d.uncovered_resources
        then []
        else codes " for resources: " ++ join_comma d.uncovered_resources)

abbrev pub requested_summary : List Resource → Permissions → ScopeSummary
requested_summary resources perms = record { targets = raw_strings resources; permissions = perms }

unfoldable pub audit_deny : Str → Identity → List Resource → Permissions → Decision → Str → Event
audit_deny op id resources perms d reason = record {
  operation = op;
  decision = deny;
  identity = id;
  matched_policies = d.matched_policies;
  skipped_policies = d.skipped_policies;
  requested_scope = requested_summary resources perms;
  computed_scope = none;
  token_issued = false;
  reason = reason;
}

unfoldable pub audit_allow : Identity → List Resource → Permissions → Decision → ScopedToken → Event
audit_allow id resources perms d token = record {
  operation = codes "token";
  decision = allow;
  identity = id;
  matched_policies = d.matched_policies;
  skipped_policies = d.skipped_policies;
  requested_scope = requested_summary resources perms;
  computed_scope = some (record { targets = token.repositories; permissions = token.permissions });
  token_issued = true;
  reason = [];
}

abbrev pub policy_input : Identity → List Resource → Engine.Input
policy_input id resources = record {
  issuer = id.issuer;
  caller = id.claims;
  request = record { resource = []; resources = raw_strings resources };
}

-- `int64(time.Until(t).Seconds())`, which rounds towards zero; `time.Until` saturates. The two points
-- in time are nanoseconds from one origin before every time that Go decodes, its zero time included.
-- The floating-point seconds of Go may differ from the exact ones only for a duration of more than
-- 2^23 seconds.
abbrev pub seconds_until : ℕ → ℕ → Seconds
seconds_until now t =
    if leb now t
    then ahead (min (t - now) (2 ^ 63 - 1) / 1_000_000_000)
    else past (min (now - t) (2 ^ 63) / 1_000_000_000)

module _ (cel : Cel) (gh : GitHub) (AuthFailure : Type 0) where
  -- The dependencies of the handlers. `now` is the time at which the response is written, from the
  -- same origin as `expires_at`.
  pub record Server : Type 0 where
    pub authenticate : Str → Outcome AuthFailure Identity
    pub engine : Engine cel
    pub app_name : Str
    pub app_email : Str
    pub now : ℕ

  module _ (s : Server) where
    unfoldable pub token_response : Permissions → ScopedToken → TokenExchangeResponse
    token_response perms token = record {
      access_token = token.token;
      issued_token_type = token_type_access_token;
      token_type = codes "bearer";
      expires_in = seconds_until s.now token.expires_at;
      scope =
          if not (scope_equal perms token.permissions) then encode_scope token.permissions else [];
      app_name = s.app_name;
      app_email = s.app_email;
    }

    abbrev pub denied : Event → Response → Log → Reply
    denied event r log = record { response = r; events = event ∷ []; log = log }

    -- What follows `Mint`.
    unfoldable pub on_mint :
        Identity
        → List Resource
        → Permissions
        → Decision
        → Log × Outcome (MintError gh.Failure) ScopedToken
        → Reply
    on_mint id resources perms d (log, err empty_scope) =
        denied (audit_deny (codes "token") id resources perms d (codes "empty computed scope"))
          (error 400 invalid_grant (text (codes "forbidden by policy"))) log
    on_mint id resources perms d (log, err (insufficient_scope owner missing)) =
        denied
          (audit_deny (codes "token") id resources perms d
            (codes "installation permissions insufficient"))
          (error 400 invalid_scope
            (text (codes "requested scope exceeds installation permissions")))
          log
    on_mint id resources perms d (log, err e) =
        refuse (error 502 server_error (text (codes "upstream error"))) log
    on_mint id resources perms d (log, ok token) = record {
      response = record { status = 200; body = issued (token_response perms token) };
      events = audit_allow id resources perms d token ∷ [];
      log = log;
    }

    -- What follows `Evaluate`.
    unfoldable pub on_decision :
        Identity → List Resource → Str → Permissions → Log → Outcome Engine.Error Decision → Reply
    on_decision id resources owner perms log (err e) =
        refuse (error 400 invalid_request (policy_error e)) log
    on_decision id resources owner perms log (ok d) =
        if not d.allowed
        then denied (audit_deny (codes "token") id resources perms d (deny_reason d))
            (error 400 invalid_grant (text (codes "forbidden by policy"))) log
        else on_mint id resources perms d (mint gh owner resources perms log)

    -- What follows `decodeScope`.
    unfoldable pub on_scope : Identity → List Resource → Str → Log → Option Permissions → Reply
    on_scope id resources owner log none =
        refuse
          (error 400 invalid_scope
            (text (codes "scope must be a space-delimited list of permission:level tokens")))
          log
    on_scope id resources owner log (some perms) =
        on_decision id resources owner perms log
          (evaluate cel s.engine (policy_input id resources) perms)

    -- What follows `resource.Owner`.
    unfoldable pub on_owner : Form → Identity → List Resource → Log → Option Str → Reply
    on_owner form id resources log none = refuse (record { status = 0; body = aborted }) log
    on_owner form id resources log (some owner) =
        on_scope id resources owner log (decode_scope (form_get (codes "scope") form))

    -- What follows `resource.ParseAll`.
    unfoldable pub on_resources :
        Form → Identity → Log → Outcome Parse.Error (List Resource) → Reply
    on_resources form id log (err e) = refuse (error 400 invalid_target (resource_error e)) log
    on_resources form id log (ok resources) = on_owner form id resources log (owner_of resources)

    -- What follows `Authenticate`.
    unfoldable pub on_identity : Form → Log → Outcome AuthFailure Identity → Reply
    on_identity form log (err e) =
        refuse (error 400 invalid_grant (text (codes "subject_token verification failed"))) log
    on_identity form log (ok id) =
        on_resources form id log (parse_all (form_values (codes "resource") form))

    -- What follows the checks on the form.
    unfoldable pub on_token : Form → Log → Outcome Response Str → Reply
    on_token form log (err r) = refuse r log
    on_token form log (ok token) = on_identity form log (s.authenticate token)

    unfoldable pub on_form : Log → Option Form → Reply
    on_form log none = refuse (bad (codes "malformed request body")) log
    on_form log (some form) = on_token form log (check_form form)

    unfoldable pub handle_token : HttpRequest → Log → Reply
    handle_token req log =
        if not (is_form req.media_type)
        then refuse (bad (codes "Content-Type must be application/x-www-form-urlencoded")) log
        else on_form log req.form
