-- ===== src/Config/Urls.antt =====
-- internal/config/config.go: `parseIssuerURL` and the check of the broker's own URL. Go's net/url and
-- the lower-casing of text are a parameter.
use gh_token_broker.Base.{
  ℕ, Bool, true, false, not, ◌||◌, Option, none, some, [], ◌∷◌, Str, codes, ◌==◌, if◌then◌else◌,
  eqb, is_empty, Outcome, ok, err, cut,
}
use gh_token_broker.Perm.Levels.{found}

-- The parts of a `url.URL` that are read.
pub record UrlParts : Type 0 where
  pub scheme : Str
  pub host : Str
  pub has_user : Bool
  pub raw_query : Str
  pub force_query : Bool
  pub path : Str

pub record UrlLib : Type 0 where
  -- `url.Parse`
  pub parse : Str → Option UrlParts
  pub port : UrlParts → Str
  pub hostname : UrlParts → Str
  pub print : UrlParts → Str
  -- `strings.ToLower`
  pub to_lower : Str → Str

-- `strings.HasSuffix(s, c)` for a suffix of one byte
unfoldable pub ends_with : ℕ → Str → Bool
ends_with c [] = false
ends_with c (b ∷ []) = eqb b c
ends_with c (b ∷ d ∷ s) = ends_with c (d ∷ s)

pub data UrlError : Type 0 where
  missing : UrlError
  not_canonical : Str → UrlError

abbrev pub bad_url : UrlLib → Str → UrlParts → Bool
bad_url lib raw u =
    not (u.scheme == codes "https")
    || is_empty u.host
    || not (u.host == lib.to_lower u.host)
    || (lib.port u == codes "443")
    || ends_with b':' u.host
    || ends_with b'.' (lib.hostname u)
    || u.has_user
    || not (is_empty u.raw_query)
    || u.force_query
    || found (cut b'#' raw)
    || ends_with b'/' u.path
    || not (lib.print u == raw)

abbrev pub canonical : UrlLib → Str → Option UrlParts → Outcome UrlError UrlParts
canonical lib raw none = err (not_canonical raw)
canonical lib raw (some u) = if bad_url lib raw u then err (not_canonical raw) else ok u

unfoldable pub parse_issuer_url : UrlLib → Str → Outcome UrlError UrlParts
parse_issuer_url lib raw = if is_empty raw then err missing else canonical lib raw (lib.parse raw)

-- `err != nil || u.Scheme != "https" || u.Host == ""`
abbrev pub not_absolute : Option UrlParts → Bool
not_absolute none = true
not_absolute (some u) = not (u.scheme == codes "https") || is_empty u.host
