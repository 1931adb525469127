-- ===== src/Config/Issuers.antt =====
-- internal/config/config.go: `validateIssuer`, with the checks that it calls.
use gh_token_broker.Base.{
  ℕ, Bool, true, false, not, ◌&&◌, ◌||◌, Option, none, some, List, [], ◌∷◌, ◌++◌, Str, codes, ◌==◌,
  if◌then◌else◌, eqb, ltb, leb, all, is_empty, contains, Outcome, ok, ◌>>=◌, ◌>>◌, reject, wrap,
  each,
}
use gh_token_broker.Base.Map.{Map, lookup}
use gh_token_broker.Base.Sort.{sort}
use gh_token_broker.Config.Types.{Issuer, is_preset}
use gh_token_broker.Config.Claims.{github_claims}
use gh_token_broker.Config.Defaults.{github_issuer_host, github_issuer_url}
use gh_token_broker.Config.Urls.{UrlParts, UrlLib, UrlError, parse_issuer_url}
use gh_token_broker.Policy.Engine.{keys}
use gh_token_broker.Resource.Pattern.{hyphen, is_slug_byte, match_words}

abbrev pub max_token_lifetime_limit : ℕ
max_token_lifetime_limit = 86_400

pub data ClaimNameError : Type 0 where
  empty_name : ClaimNameError
  unprintable registered : Str → ClaimNameError

pub data IssuerError : Type 0 where
  bad_name unknown_preset : Str → IssuerError
  no_audience : IssuerError
  bad_url : UrlError → IssuerError
  fixed_claims preset_only no_claims no_require preset_issuer : IssuerError
  bad_algorithm : Str → IssuerError
  bad_lifetime : IssuerError
  bad_claim bad_require : ClaimNameError → IssuerError
  duplicate_claim : Str → IssuerError
  no_values empty_value : Str → IssuerError

-- `^[a-z0-9-]+$`
unfoldable pub match_issuer_name : Str → Bool
match_issuer_name s = not (is_empty s) && all (λ c. is_slug_byte c || eqb c hyphen) s

-- `^[a-z0-9]+(?:-[a-z0-9]+)*$`
unfoldable pub match_enterprise_slug : Str → Bool
match_enterprise_slug s = match_words is_slug_byte false s

abbrev pub registered_claims : List Str
registered_claims = codes "iss" ∷ codes "aud" ∷ codes "exp" ∷ codes "iat" ∷ codes "nbf" ∷ []

abbrev pub allowed_algorithms : List Str
allowed_algorithms =
    codes "RS256"
    ∷ codes "RS384"
    ∷ codes "RS512"
    ∷ codes "ES256"
    ∷ codes "ES384"
    ∷ codes "ES512"
    ∷ codes "PS256"
    ∷ codes "PS384"
    ∷ codes "PS512"
    ∷ codes "EdDSA"
    ∷ []

-- The loop runs over the runes of the name; one that is not ASCII has no byte in the range.
abbrev pub is_printable : ℕ → Bool
is_printable c = ltb b' ' c && leb c b'~'

unfoldable pub check_claim_name : Str → Outcome ClaimNameError (Unit {0})
check_claim_name name = do
  reject (is_empty name) empty_name
  reject (not (all is_printable name)) (unprintable name)
  reject (contains registered_claims name) (registered name)

-- A loop with a set of what it has seen: `check` for each entry, and no entry twice.
unfoldable pub check_unique {ℓ} :
    {E : Type ℓ}
    → (Str → Outcome E (Unit {0}))
    → (Str → E)
    → List Str
    → List Str
    → Outcome E (Unit {0})
check_unique check duplicate seen [] = ok tt
check_unique check duplicate seen (c ∷ rest) = do
  check c
  reject (contains seen c) (duplicate c)
  check_unique check duplicate (c ∷ seen) rest

abbrev pub or_none : Option (List Str) → List Str
or_none none = []
or_none (some values) = values

-- one round of the loop over the sorted keys of `Require`
unfoldable pub check_required : Map (List Str) → Str → Outcome IssuerError (Unit {0})
check_required require c = do
  wrap bad_require (check_claim_name c)
  reject (is_empty (or_none (lookup c require))) (no_values c)
  reject (contains (or_none (lookup c require)) []) (empty_value c)

-- `strings.CutPrefix`
unfoldable pub cut_prefix : Str → Str → Option Str
cut_prefix [] s = some s
cut_prefix (p ∷ ps) [] = none
cut_prefix (p ∷ ps) (c ∷ s) = if eqb p c then cut_prefix ps s else none

abbrev pub is_slug : Option Str → Bool
is_slug none = false
is_slug (some slug) = match_enterprise_slug slug

unfoldable pub equal_lists : List Str → List Str → Bool
equal_lists [] [] = true
equal_lists [] (y ∷ ys) = false
equal_lists (x ∷ xs) [] = false
equal_lists (x ∷ xs) (y ∷ ys) = x == y && equal_lists xs ys

-- the branch of `validateIssuer` for the preset, and the one without it
unfoldable pub check_preset : Issuer → Outcome IssuerError (Unit {0})
check_preset iss = do
  reject (not (equal_lists iss.claims github_claims)) fixed_claims
  reject
      (not (iss.issuer == github_issuer_url)
        && not (is_slug (cut_prefix (github_issuer_url ++ (b'/' ∷ [])) iss.issuer)))
      preset_only

unfoldable pub check_plain : UrlLib → UrlParts → Issuer → Outcome IssuerError (Unit {0})
check_plain lib u iss = do
  reject (lib.hostname u == github_issuer_host) preset_issuer
  reject (is_empty iss.claims) no_claims
  reject (is_empty iss.require) no_require

unfoldable pub validate_issuer : UrlLib → Issuer → Outcome IssuerError (Unit {0})
validate_issuer lib iss = do
  reject (not (match_issuer_name iss.name)) (bad_name iss.name)
  reject (not (is_empty iss.preset) && not (is_preset iss)) (unknown_preset iss.preset)
  reject (is_empty iss.audience) no_audience
  u ← wrap bad_url (parse_issuer_url lib iss.issuer)
  if is_preset iss then check_preset iss else check_plain lib u iss
  each (λ alg. reject (not (contains allowed_algorithms alg)) (bad_algorithm alg)) iss.algorithms
  reject
      (ltb iss.max_token_lifetime_seconds 1
        || ltb max_token_lifetime_limit iss.max_token_lifetime_seconds)
      bad_lifetime
  check_unique (λ c. wrap bad_claim (check_claim_name c)) duplicate_claim [] iss.claims
  each (check_required iss.require) (sort (keys iss.require))
