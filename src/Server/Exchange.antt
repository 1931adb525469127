-- ===== src/Server/Exchange.antt =====
-- internal/server/server.go: which forms `handleToken` takes for a token exchange.
use gh_token_broker.Base.{◌≡◌, ◌≢◌, ◌⊎◌, [], Str, codes, ==_iff, ok, arith}
use gh_token_broker.Server.Wire.{
  Form, grant_type_token_exchange, token_type_access_token, token_type_id_token,
}
use gh_token_broker.Server.Handler.{form_get, check_form}

-- The form asks to exchange the ID token `token` for an access token, without an actor.
pub record IsExchange (form : Form) (token : Str) : Type 0 where
  pub grant : form_get (codes "grant_type") form ≡ grant_type_token_exchange
  pub no_actor : form_get (codes "actor_token") form ≡ []
  pub no_actor_type : form_get (codes "actor_token_type") form ≡ []
  pub subject : form_get (codes "subject_token") form ≡ token
  pub some_subject : token ≢ []
  pub subject_type : form_get (codes "subject_token_type") form ≡ token_type_id_token
  pub requested :
      (form_get (codes "requested_token_type") form ≡ [])
      ⊎ (form_get (codes "requested_token_type") form ≡ token_type_access_token)

pub check_form-IsExchange :
    (form : Form) (token : Str) → check_form form ≡ ok token → IsExchange form token
unfolding check_form
check_form-IsExchange form token h =
    let kind = ==_iff (form_get (codes "grant_type") form) grant_type_token_exchange in
    let id_token = ==_iff (form_get (codes "subject_token_type") form) token_type_id_token in
    let access_token =
      ==_iff (form_get (codes "requested_token_type") form) token_type_access_token in
    record {
      grant = ground arith;
      no_actor = ground arith;
      no_actor_type = ground arith;
      subject = ground arith;
      some_subject = λ e. ground arith;
      subject_type = ground arith;
      requested = ground arith;
    }

pub IsExchange-check_form :
    (form : Form) (token : Str) → IsExchange form token → check_form form ≡ ok token
unfolding check_form
IsExchange-check_form form token x =
    let kind = ==_iff (form_get (codes "grant_type") form) grant_type_token_exchange in
    let id_token = ==_iff (form_get (codes "subject_token_type") form) token_type_id_token in
    let access_token =
      ==_iff (form_get (codes "requested_token_type") form) token_type_access_token in
    let grant = x.grant in
    let no_actor = x.no_actor in
    let no_actor_type = x.no_actor_type in
    let subject = x.subject in
    let some_subject = x.some_subject in
    let subject_type = x.subject_type in let requested = x.requested in ground arith
