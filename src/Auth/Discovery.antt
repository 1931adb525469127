-- ===== src/Auth/Discovery.antt =====
-- internal/auth/discovery.go: the client that reads the keys of an issuer. The OIDC and URL
-- libraries and the underlying round tripper are parameters. The clock is monotonic, in nanoseconds,
-- and is read twice under the lock of the transport, whose critical sections follow each other.
use gh_token_broker.Base.{
  ℕ, ◌-◌, Bool, false, not, ◌&&◌, ◌||◌, Option, none, some, Str, codes, ◌==◌, if◌then◌else◌, ltb,
  is_empty, Outcome, ok, err,
}

abbrev pub max_redirects : ℕ
max_redirects = 3

abbrev pub max_response_bytes : ℕ
max_response_bytes = 1_048_576

abbrev pub jwks_fetch_interval : ℕ
jwks_fetch_interval = 30_000_000_000

abbrev pub https : Str
https = codes "https"

-- A parsed URL; `text` is its `String()`, and `redacted` the same without the password.
pub record Url : Type 0 where
  pub scheme : Str
  pub host : Str
  pub text : Str
  pub redacted : Str

-- `last_fetch` is `none` for Go's zero time, which is longer ago than any interval.
pub record Transport : Type 0 where
  pub jwks_url : Str
  pub last_fetch : Option ℕ

-- The readings of `time.Since` and of `time.Now`.
pub record Clock : Type 0 where
  pub checked : ℕ
  pub stored : ℕ

pub data Verdict : Type 0 where
  refused throttled passed : Verdict

unfoldable pub is_jwks : Transport → Url → Bool
is_jwks t url = not (is_empty t.jwks_url) && (url.text == t.jwks_url)

-- `time.Since(t.lastJWKSFetch) < jwksFetchInterval`
abbrev pub is_throttled : Option ℕ → ℕ → Bool
is_throttled none now = false
is_throttled (some last) now = ltb (now - last) jwks_fetch_interval

-- What `RoundTrip` does before it calls the underlying round tripper.
unfoldable pub admit : Transport → Url → Clock → Transport × Verdict
admit t url clock =
    if not (url.scheme == https)
    then (t, refused)
    else if is_jwks t url
    then (if is_throttled t.last_fetch clock.checked
        then (t, throttled)
        else (record t { last_fetch = some clock.stored }, passed))
    else (t, passed)

-- `CheckRedirect`, by the number of requests made so far.
unfoldable pub check_redirect : ℕ → Outcome ℕ (Unit {0})
check_redirect via = if ltb max_redirects via then err max_redirects else ok tt

module _ (Failure : Type 0) where
  pub data TransportError : Type 0 where
    non_https : Str → TransportError
    fetch_throttled : TransportError
    failed : Failure → TransportError

  module _ (Reply : Type 0) (base : Url → Outcome Failure Reply) (cap : ℕ → Reply → Reply) where
    abbrev pub capped : Outcome Failure Reply → Outcome TransportError Reply
    capped (err e) = err (failed e)
    capped (ok resp) = ok (cap max_response_bytes resp)

    abbrev pub answer : Url → Transport × Verdict → Transport × Outcome TransportError Reply
    answer url (t, refused) = (t, err (non_https url.redacted))
    answer url (t, throttled) = (t, err fetch_throttled)
    answer url (t, passed) = (t, capped (base url))

    unfoldable pub round_trip : Transport → Url → Clock → Transport × Outcome TransportError Reply
    unfolding admit
    round_trip t url clock = answer url (admit t url clock)

  pub data DiscoveryError : Type 0 where
    no_provider no_claims : Failure → DiscoveryError
    not_https : Str → DiscoveryError

  module _ (Provider : Type 0) (new_provider : Str → Outcome Failure Provider)
      (jwks_uri : Provider → Outcome Failure Str) (parse_url : Str → Option Url) where
    -- The checks of `discover` on the parsed `jwks_uri`, and the transport that it leaves.
    abbrev pub on_url : Str → Option Url → Outcome DiscoveryError Transport
    on_url uri none = err (not_https uri)
    on_url uri (some u) =
        if not (u.scheme == https) || is_empty u.host
        then err (not_https uri)
        else ok (record { jwks_url = u.text; last_fetch = none })

    abbrev pub on_claims : Outcome Failure Str → Outcome DiscoveryError Transport
    on_claims (err e) = err (no_claims e)
    on_claims (ok uri) = on_url uri (parse_url uri)

    abbrev pub on_provider : Outcome Failure Provider → Outcome DiscoveryError Transport
    on_provider (err e) = err (no_provider e)
    on_provider (ok p) = on_claims (jwks_uri p)

    unfoldable pub discover : Str → Outcome DiscoveryError Transport
    discover issuer_url = on_provider (new_provider issuer_url)
