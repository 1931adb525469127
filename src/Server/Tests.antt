-- ===== src/Server/Tests.antt =====
-- Runs of `handleToken` against the evaluator of Policy/Tests and the GitHub of GithubApp/Tests.
use gh_token_broker.Base.{
  ◌↔◌, ◌≢◌, ◌≡◌, refl, ok, err, some, true, [], ◌∷◌, ◌++◌, Str, arith, codes, List, ◌==◌, All,
  Bool-cases, inl, inr, if◌then◌else◌,
}
use gh_token_broker.Base.Map.{insert, IsMap, lookup}
use gh_token_broker.Perm.Catalog.{catalog}
use gh_token_broker.Perm.Levels.{level_name, level_ord, valid_key, valid_level, valid_key_level}
use gh_token_broker.Perm.Scope.{gaps, intersect, normalize, satisfies, Permissions}
use gh_token_broker.Perm.Tests.{asked, asked-IsMap}
use gh_token_broker.Policy.Engine.{
  covers_permissions, eval_bool, evaluate, merge_permissions, Input,
}
use gh_token_broker.Policy.Tests.{cel, engine, issuer, policies_ok}
use gh_token_broker.Policy.Policies.{HasMap}
use gh_token_broker.Policy.Evaluate.{policies_of}
use gh_token_broker.GithubApp.Client.{
  mint, mint_kind, mint_scoped_token, resolve, resolve_installation, Log,
}
use gh_token_broker.GithubApp.Tests.{github, answers, read_contents, read_contents-IsMap}
use gh_token_broker.Auth.Identity.{Identity}
use gh_token_broker.Server.Fields.{cut_last, fields, AreTokens}
use gh_token_broker.Server.Equal.{scope_equal_iff}
use gh_token_broker.Server.Scope.{decode_scope, encode_scope, scope_equal}
use gh_token_broker.Server.RoundTrip.{IsAllowed, decode_scope_sound, decode_scope-encode_scope}
use gh_token_broker.Server.Wire.{
  HttpRequest, TokenExchangeResponse, issued, Form, grant_type_token_exchange, token_type_id_token,
}
use gh_token_broker.Server.Handler.{
  audit_allow, check_form, on_decision, on_form, on_identity, on_mint, on_owner, on_resources,
  on_scope, on_token, token_response, Server, handle_token,
}
use gh_token_broker.Server.Run.{carries_token}
use gh_token_broker.Server.Issued.{Audited, Exchange, handle_token-Audited, handle_token-issued_iff}
use gh_token_broker.Server.Safety.{IsSafe, handle_token-IsSafe}
use gh_token_broker.Resource.Parse.{
  owner_of, parse, parse_all, raw_strings, repo_resource, repo_short_names, require_owner,
  require_repo_name,
}
use gh_token_broker.Resource.Pattern.{match_owner, match_repo}
use gh_token_broker.Base.Text.{contains, cut}

abbrev caller : Identity
caller = record {
  issuer = issuer;
  issuer_url = codes "https://issuer.example";
  subject = codes "repo:acme/app";
  token_id = codes "1";
  issued_at = 0;
  expiry = 300_000_000_000;
  claims = [];
  audit_claims = [];
}

abbrev server : Server cel github (Unit {0})
server = record {
  authenticate = λ token. if token == codes "good" then ok caller else err tt;
  engine = engine;
  app_name = codes "broker";
  app_email = codes "broker@example";
  now = 0;
}

abbrev form_with : Str → Str → Form
form_with token scope =
    (codes "grant_type", grant_type_token_exchange ∷ [])
    ∷ (codes "subject_token", token ∷ [])
    ∷ (codes "subject_token_type", token_type_id_token ∷ [])
    ∷ (codes "resource", codes "acme/app" ∷ [])
    ∷ (codes "scope", scope ∷ [])
    ∷ []

abbrev request : Str → Str → HttpRequest
request token scope = record {
  media_type = some (codes "application/x-www-form-urlencoded");
  form = some (form_with token scope);
}

abbrev pub good : HttpRequest
good = request (codes "good") (codes "contents:read")

token_issued :
    carries_token (handle_token cel github (Unit {0}) server good []).response.body ≡ true
unfolding ◌==◌ handle_token on_form on_token check_form on_identity on_resources on_owner on_scope
    on_decision on_mint parse_all parse require_owner require_repo_name repo_resource owner_of
    raw_strings match_owner match_repo cut contains lookup insert decode_scope fields cut_last
    valid_key_level valid_key valid_level level_ord level_name catalog satisfies normalize gaps
    intersect evaluate merge_permissions covers_permissions eval_bool mint mint_kind
    repo_short_names audit_allow token_response resolve mint_scoped_token resolve_installation
token_issued = refl

bad_token :
    (handle_token cel github
      (Unit {0})
      server
      (request (codes "bad") (codes "contents:read"))
      []).log
    ≡ []
unfolding handle_token ◌==◌ on_form on_token check_form lookup on_identity
bad_token = refl

too_wide :
    (handle_token cel github
      (Unit {0})
      server
      (request (codes "good") (codes "contents:admin"))
      []).log
    ≡ []
unfolding ◌==◌ handle_token on_form on_token check_form on_identity on_resources on_owner on_scope
    on_decision on_mint parse_all parse require_owner require_repo_name repo_resource owner_of
    raw_strings match_owner match_repo cut contains lookup insert decode_scope fields cut_last
    valid_key_level valid_key valid_level level_ord level_name catalog satisfies normalize gaps
    intersect evaluate merge_permissions covers_permissions eval_bool mint
too_wide = refl

grants_ok : (i : Input) → All (HasMap cel) (policies_of cel server.engine i)
unfolding lookup ◌==◌
grants_ok i = elim (Bool-cases (issuer == i.issuer)) [
  | inl known ↦ rw known policies_ok
  | inr other ↦ rw other tt
]

handle_token-IsSafe_example :
    (calls : Log) × ((handle_token cel github (Unit {0}) server good []).log ≡ [] ++ calls)
    × All (IsSafe cel github (Unit {0}) server good) calls
handle_token-IsSafe_example =
    handle_token-IsSafe cel github (Unit {0}) server answers grants_ok good []

handle_token-Audited_example :
    Audited cel github (Unit {0}) server good [] (handle_token cel github (Unit {0}) server good [])
handle_token-Audited_example = handle_token-Audited cel github (Unit {0}) server good []

handle_token-issued_iff_example :
    ((r : TokenExchangeResponse) × ((handle_token cel github
          (Unit {0})
          server
          good
          []).response.body
        ≡ issued r))
    ↔ Exchange cel github (Unit {0}) server good []
handle_token-issued_iff_example = handle_token-issued_iff cel github (Unit {0}) server good []

decoded_scope : decode_scope (codes "contents:read issues:write") ≡ some asked
unfolding decode_scope fields cut_last valid_key_level lookup catalog ◌==◌ contains insert
decoded_scope = refl

decode_scope_sound_example : IsMap asked × IsAllowed asked
decode_scope_sound_example =
    decode_scope_sound (codes "contents:read issues:write") asked decoded_scope

asked-IsAllowed : IsAllowed asked
asked-IsAllowed = (decode_scope_sound (codes "contents:read issues:write") asked decoded_scope).1

decode_scope-encode_scope_example :
    (out : Permissions) × (decode_scope (encode_scope asked) ≡ some out)
    × ((j : Str) → lookup j out ≡ lookup j asked)
decode_scope-encode_scope_example = decode_scope-encode_scope asked (λ e. cc) asked-IsAllowed

abbrev tokens : List Str
tokens = codes "contents:read" ∷ codes "issues:write" ∷ []

tokens-AreTokens : AreTokens tokens
tokens-AreTokens = ground arith

asked-AreFull : (k v : Str) → lookup k asked ≡ some v → v ≢ []
unfolding lookup
asked-AreFull k v e = ground arith

scope_equal_iff_example :
    (scope_equal asked read_contents ≡ true) ↔ ((k : Str) → lookup k asked ≡ lookup k read_contents)
scope_equal_iff_example =
    scope_equal_iff asked read_contents asked-IsMap read_contents-IsMap asked-AreFull
