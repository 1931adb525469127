-- ===== src/Server/Wire.antt =====
-- internal/server/server.go: what the token endpoint reads and writes, and internal/audit/audit.go:
-- the events that it records.
use gh_token_broker.Base.{ℕ, Bool, Option, List, [], Str, codes}
use gh_token_broker.Base.Map.{Map}
use gh_token_broker.Perm.Scope.{Permissions}
use gh_token_broker.Resource.Parse
use gh_token_broker.Resource.Parse.{Resource, parse_all, owner_of, raw_strings}
use gh_token_broker.Policy.Engine
use gh_token_broker.Policy.Engine.{Cel, Engine, Decision, evaluate}
use gh_token_broker.GithubApp.Client.{Log}
use gh_token_broker.Auth.Identity.{Identity}

abbrev pub grant_type_token_exchange : Str
grant_type_token_exchange = codes "urn:ietf:params:oauth:grant-type:token-exchange"

abbrev pub token_type_access_token : Str
token_type_access_token = codes "urn:ietf:params:oauth:token-type:access_token"

abbrev pub token_type_id_token : Str
token_type_id_token = codes "urn:ietf:params:oauth:token-type:id_token"

abbrev pub Form : Type 0
Form = Map (List Str)

pub record HttpRequest : Type 0 where
  pub media_type : Option Str
  pub form : Option Form

pub data ErrorCode : Type 0 where
  invalid_request unsupported_grant invalid_grant invalid_scope invalid_target server_error :
      ErrorCode

pub data Description : Type 0 where
  text : Str → Description
  resource_error : Parse.Error → Description
  policy_error : Engine.Error → Description

-- Whole seconds until a point in time, or since it.
pub data Seconds : Type 0 where
  ahead past : ℕ → Seconds

pub record TokenExchangeResponse : Type 0 where
  pub access_token : Str
  pub issued_token_type : Str
  pub token_type : Str
  pub expires_in : Seconds
  pub scope : Str
  pub app_name : Str
  pub app_email : Str

-- `aborted` stands for a panic, after which the HTTP server drops the connection.
pub data Body : Type 0 where
  oauth_error : ErrorCode → Description → Body
  issued : TokenExchangeResponse → Body
  aborted : Body

pub record Response : Type 0 where
  pub status : ℕ
  pub body : Body

pub data AuditDecision : Type 0 where
  allow deny : AuditDecision

pub record ScopeSummary : Type 0 where
  pub targets : List Str
  pub permissions : Permissions

pub record Event : Type 0 where
  pub operation : Str
  pub decision : AuditDecision
  pub identity : Identity
  pub matched_policies : List Str
  pub skipped_policies : List Str
  pub requested_scope : ScopeSummary
  pub computed_scope : Option ScopeSummary
  pub token_issued : Bool
  pub reason : Str

pub record Reply : Type 0 where
  pub response : Response
  pub events : List Event
  pub log : Log

abbrev pub error : ℕ → ErrorCode → Description → Response
error status code description = record { status = status; body = oauth_error code description }

abbrev pub refuse : Response → Log → Reply
refuse r log = record { response = r; events = []; log = log }
