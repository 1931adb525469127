-- ===== src/Auth/Authenticate.antt =====
-- internal/auth/auth.go: `Authenticate`. The JOSE and OIDC libraries are a parameter.
use gh_token_broker.Base.{
  ℕ, ◌≤◌, ◌≡◌, Option, none, some, Str, ltb, is_empty, length, Outcome, ok, err, ◌>>=◌, ◌>>◌,
  reject, wrap, >>=-eq-ok, reject->>, wrap-eq-ok,
}
use gh_token_broker.Base.Map.{Map, lookup}
use gh_token_broker.Config.Types.{Issuer}
use gh_token_broker.Auth.Identity.{Identity}
use gh_token_broker.Auth.Claims.{Float, Claims, ClaimError, identity}
use gh_token_broker.Auth.Dated.{le_of_ltb}
use gh_token_broker.Auth.Admitted.{IsAdmitted, identity-IsAdmitted}

abbrev pub max_token_bytes : ℕ
max_token_bytes = 16_384

pub record Oidc : Type 1 where
  pub Jws : Type 0
  pub Token : Type 0
  pub Failure : Type 0
  -- `jose.ParseSignedCompact` with the algorithms of all issuers
  pub parse_signed : Str → Outcome Failure Jws
  -- the `iss` of the payload, which is not verified yet
  pub unverified_issuer : Jws → Outcome Failure Str
  -- the issuer's `verifier.Verify`
  pub verify : Issuer → Str → Outcome Failure Token
  -- `idToken.Claims`
  pub claims_of : Token → Outcome Failure Claims
  -- `strconv.FormatFloat(v, 'f', -1, 64)` on whole numbers
  pub format : Float → Str

pub data AuthError (Failure : Type 0) : Type 0 where
  empty_token token_too_large : AuthError Failure
  unparsable undecodable : Failure → AuthError Failure
  unknown_issuer : Str → AuthError Failure
  unverified bad_claims : Str → Failure → AuthError Failure
  refused_claims : Str → ClaimError → AuthError Failure

pub record Authenticator : Type 0 where
  pub issuers : Map Issuer
  pub skew : ℕ

module _ (oidc : Oidc) where
  open oidc use {Failure, parse_signed, unverified_issuer, verify, claims_of, format}

  abbrev pub known : Str → Option Issuer → Outcome (AuthError Failure) Issuer
  known url none = err (unknown_issuer url)
  known url (some cfg) = ok cfg

  -- What follows the choice of the issuer.
  unfoldable pub authenticate_by : Issuer → ℕ → ℕ → Str → Outcome (AuthError Failure) Identity
  authenticate_by cfg skew now raw = do
    token ← wrap (unverified cfg.name) (verify cfg raw)
    claims ← wrap (bad_claims cfg.name) (claims_of token)
    wrap (refused_claims cfg.name) (identity format cfg skew now claims)

  unfoldable pub authenticate : Authenticator → ℕ → Str → Outcome (AuthError Failure) Identity
  unfolding authenticate_by
  authenticate a now raw = do
    reject (is_empty raw) empty_token
    reject (ltb max_token_bytes (length raw)) token_too_large
    jws ← wrap unparsable (parse_signed raw)
    url ← wrap undecodable (unverified_issuer jws)
    cfg ← known url (lookup url a.issuers)
    authenticate_by cfg a.skew now raw

  -- A configured issuer vouches for the token, and its claims are admitted.
  pub record IsVouched (a : Authenticator) (now : ℕ) (raw : Str) (id : Identity) : Type 0 where
    pub url : Str
    pub cfg : Issuer
    pub token : oidc.Token
    pub claims : Claims
    pub configured : lookup url a.issuers ≡ some cfg
    pub verified : verify cfg raw ≡ ok token
    pub decoded : claims_of token ≡ ok claims
    pub admitted : IsAdmitted cfg a.skew now claims id
    pub bounded : length raw ≤ max_token_bytes

  known-ok : (url : Str) (o : Option Issuer) (cfg : Issuer) → known url o ≡ ok cfg → o ≡ some cfg
  known-ok url none cfg h = cc
  known-ok url (some c) cfg h = cc

  -- If `Authenticate` returns a caller, then the token is at most 16 KiB long, the verifier of a
  -- configured issuer accepts it, and its claims are admitted for this caller: they name exactly
  -- the issuer and its audience, the dates of the caller are the `exp` and `iat` of the token,
  -- which is issued before it expires and lives no longer than the issuer allows, up to the skew
  -- the token has not expired, is not issued in the future and its `nbf`, if there is one, has
  -- come, the subject is the token's `sub` and not empty, every exposed claim is one that the
  -- issuer declares with its value in the token, and every required claim has an allowed value.
  pub authenticate-IsVouched :
      (a : Authenticator) (now : ℕ) (raw : Str) (id : Identity)
      → authenticate a now raw ≡ ok id
      → IsVouched a now raw id
  unfolding authenticate authenticate_by
  authenticate-IsVouched a now raw id h0 =
      let (_, h1) = reject->> (is_empty raw) empty_token _ h0 in
      let (fits, h2) = reject->> (ltb max_token_bytes (length raw)) token_too_large _ h1 in
      let (jws, _, h3) = >>=-eq-ok (wrap unparsable (parse_signed raw)) _ h2 in
      let (url, _, h4) = >>=-eq-ok (wrap undecodable (unverified_issuer jws)) _ h3 in
      let (cfg, chosen, h5) = >>=-eq-ok (known url (lookup url a.issuers)) _ h4 in
      let (token, verified, h6) = >>=-eq-ok (wrap (unverified cfg.name) (verify cfg raw)) _ h5 in
      let (claims, decoded, h7) = >>=-eq-ok (wrap (bad_claims cfg.name) (claims_of token)) _ h6 in
      let configured = known-ok url (lookup url a.issuers) cfg chosen in
      record {
        url = url;
        cfg = cfg;
        token = token;
        claims = claims;
        configured = configured;
        verified = wrap-eq-ok (unverified cfg.name) (verify cfg raw) verified;
        decoded = wrap-eq-ok (bad_claims cfg.name) (claims_of token) decoded;
        admitted =
            identity-IsAdmitted format cfg a.skew now claims id
              (wrap-eq-ok (refused_claims cfg.name) (identity format cfg a.skew now claims) h7);
        bounded = le_of_ltb max_token_bytes (length raw) fits;
      }
