-- ===== src/Auth/Tests.antt =====
-- Runs of the restricting transport, and of the checks on the claims of a token.
use gh_token_broker.Base.{
  ◌≢◌, true, inl, contains, ℕ, ◌+◌, ◌*◌, ◌≤◌, ◌≡◌, refl, List, [], ◌∷◌, some, codes, ◌==◌, All,
  length, arith, ok, err, false, if◌then◌else◌,
}
use gh_token_broker.Auth.Discovery.{is_jwks, Url, Transport, admit, jwks_fetch_interval}
use gh_token_broker.Base.Map.{lookup, insert}
use gh_token_broker.Auth.Identity.{Identity}
use gh_token_broker.Config.Types.{Issuer}
use gh_token_broker.Auth.Claims.{Json, Claims, number, text, identity, expired}
use gh_token_broker.Auth.Admitted.{IsAdmitted, identity-IsAdmitted}
use gh_token_broker.Auth.Authenticate.{
  Oidc, Authenticator, authenticate, unverified, IsVouched, authenticate-IsVouched,
}
use gh_token_broker.Auth.Progress.{fetches_nonempty}
use gh_token_broker.Auth.Throttle.{
  Attempt, sent, fetches, IsForward, IsHttps, AreSpaced, sent-IsHttps, fetches-AreSpaced,
  length-fetches,
}

abbrev jwks : Url
jwks = record {
  scheme = codes "https";
  host = codes "a";
  text = codes "https://a/keys";
  redacted = codes "https://a/keys";
}

abbrev insecure : Url
insecure = record {
  scheme = codes "http";
  host = codes "a";
  text = codes "http://a/keys";
  redacted = codes "http://a/keys";
}

abbrev transport : Transport
transport = record { jwks_url = codes "https://a/keys"; last_fetch = some 0 }

abbrev at : ℕ → Url → Attempt
at time url = record { url = url; clock = record { checked = time; stored = time + 1 } }

abbrev attempts : List Attempt
attempts =
    at 40_000_000_000 jwks
    ∷ at 50_000_000_000 jwks
    ∷ at 60_000_000_000 insecure
    ∷ at 70_000_000_001 jwks
    ∷ []

two_fetches : fetches transport attempts ≡ 40_000_000_001 ∷ 70_000_000_002 ∷ []
unfolding fetches admit ◌==◌ is_jwks
two_fetches = refl

attempts-AreForward : All IsForward attempts
attempts-AreForward = (omega arith, (omega arith, (omega arith, (omega arith, tt))))

first_jwks : is_jwks transport jwks ≡ true
unfolding is_jwks ◌==◌
first_jwks = refl

sent-IsHttps_example : All IsHttps (sent transport attempts)
sent-IsHttps_example = sent-IsHttps transport attempts

fetches-AreSpaced_example : AreSpaced (some 0) (fetches transport attempts)
fetches-AreSpaced_example = fetches-AreSpaced transport attempts attempts-AreForward

length-fetches_example :
    0 + length (fetches transport attempts) * jwks_fetch_interval ≤ 80_000_000_000
length-fetches_example =
    length-fetches transport 0 80_000_000_000 attempts refl attempts-AreForward
      (omega arith, (omega arith, (omega arith, (omega arith, tt)))) (omega arith)

fetches_nonempty_example : fetches transport attempts ≢ []
fetches_nonempty_example = fetches_nonempty transport attempts (inl (refl, first_jwks, omega arith))

abbrev cfg : Issuer
cfg = record {
  name = codes "github";
  preset = codes "github";
  issuer = codes "https://issuer.example";
  audience = codes "broker";
  algorithms = codes "RS256" ∷ [];
  max_token_lifetime_seconds = 3600;
  claims = codes "repository" ∷ [];
  require = (codes "repository_owner", codes "acme" ∷ []) ∷ [];
  audit_claims = [];
}

abbrev pub at_second : ℕ → Json
at_second n = number (record { negative = false; whole = n; fraction = false })

abbrev claims : Claims
claims =
    (codes "iss", text (codes "https://issuer.example"))
    ∷ (codes "aud", text (codes "broker"))
    ∷ (codes "exp", at_second 400)
    ∷ (codes "iat", at_second 100)
    ∷ (codes "sub", text (codes "repo:acme/app"))
    ∷ (codes "repository", text (codes "acme/app"))
    ∷ (codes "repository_owner", text (codes "acme"))
    ∷ []

abbrev caller : Identity
caller = record {
  issuer = codes "github";
  issuer_url = codes "https://issuer.example";
  subject = codes "repo:acme/app";
  token_id = [];
  issued_at = 100_000_000_000;
  expiry = 400_000_000_000;
  claims = (codes "repository", codes "acme/app") ∷ [];
  audit_claims = [];
}

accepted : identity (λ v. []) cfg 60_000_000_000 200_000_000_000 claims ≡ ok caller
unfolding identity lookup ◌==◌ contains insert
accepted = refl

too_late : identity (λ v. []) cfg 60_000_000_000 500_000_000_000 claims ≡ err expired
unfolding identity lookup ◌==◌
too_late = refl

identity-IsAdmitted_example : IsAdmitted cfg 60_000_000_000 200_000_000_000 claims caller
identity-IsAdmitted_example =
    identity-IsAdmitted (λ v. []) cfg 60_000_000_000 200_000_000_000 claims caller accepted

-- Libraries that accept the token "good" of the configured issuer.
abbrev oidc : Oidc
oidc = record {
  Jws = Unit {0};
  Token = Unit {0};
  Failure = Unit {0};
  parse_signed = λ raw. ok tt;
  unverified_issuer = λ jws. ok (codes "https://issuer.example");
  verify = λ c raw. if raw == codes "good" then ok tt else err tt;
  claims_of = λ token. ok claims;
  format = λ v. [];
}

abbrev authenticator : Authenticator
authenticator = record {
  issuers = (codes "https://issuer.example", cfg) ∷ [];
  skew = 60_000_000_000;
}

authenticated : authenticate oidc authenticator 200_000_000_000 (codes "good") ≡ ok caller
unfolding authenticate lookup ◌==◌ identity contains insert
authenticated = refl

forged :
    authenticate oidc authenticator 200_000_000_000 (codes "bad")
    ≡ err (unverified (codes "github") tt)
unfolding authenticate lookup ◌==◌
forged = refl

authenticate-IsVouched_example : IsVouched oidc authenticator 200_000_000_000 (codes "good") caller
authenticate-IsVouched_example =
    authenticate-IsVouched oidc authenticator 200_000_000_000 (codes "good") caller authenticated
