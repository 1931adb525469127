-- ===== src/Auth/Claims.antt =====
-- internal/auth/auth.go: the claims of a verified token. Points in time are nanoseconds since 1970;
-- Go's 64-bit durations are written out where they can saturate or wrap around.
use gh_token_broker.Base.{
  ℕ, ◌+◌, ◌-◌, ◌*◌, ◌%◌, ◌^◌, min, Bool, true, false, not, ◌&&◌, ◌||◌, Option, none, some, List, [],
  ◌∷◌, Str, codes, ◌==◌, if◌then◌else◌, ltb, leb, eqb, is_empty, length, contains, Outcome, ok, err,
  ◌>>=◌, ◌>>◌, reject,
}
use gh_token_broker.Base.Map.{Map, lookup, insert}
use gh_token_broker.Perm.Levels.{found}
use gh_token_broker.Auth.Identity.{Identity}
use gh_token_broker.Config.Types.{Issuer}

abbrev pub max_claim_bytes : ℕ
max_claim_bytes = 1024

abbrev pub max_unix_seconds : ℕ
max_unix_seconds = 9_007_199_254_740_992

abbrev pub second : ℕ
second = 1_000_000_000

-- A finite float64: its sign, its whole part, and whether there is more than the whole part.
pub record Float : Type 0 where
  pub negative : Bool
  pub whole : ℕ
  pub fraction : Bool

-- A decoded JSON value. Of the entries of an array only the strings matter, `none` is any other.
pub data Json : Type 0 where
  null object : Json
  boolean : Bool → Json
  number : Float → Json
  text : Str → Json
  array : List (Option Str) → Json

abbrev pub Claims : Type 0
Claims = Map Json

pub data ClaimError : Type 0 where
  wrong_issuer wrong_audience not_single_audience no_audience : ClaimError
  bad_date too_long not_text unmet : Str → ClaimError
  lifetime_exceeded : ℕ → ClaimError
  expired from_future not_yet_valid no_subject : ClaimError

-- `v < 0 || v > maxUnixSeconds`
abbrev pub is_out_of_range : Float → Bool
is_out_of_range v =
    (v.negative && (ltb 0 v.whole || v.fraction))
    || (not v.negative
        && (ltb max_unix_seconds v.whole || (eqb v.whole max_unix_seconds && v.fraction)))

abbrev pub date_of : Str → Option Json → Outcome ClaimError ℕ
date_of name (some (number v)) =
    if is_out_of_range v then err (bad_date name) else ok (v.whole * second)
date_of name other = err (bad_date name)

unfoldable pub numeric_date : Claims → Str → Outcome ClaimError ℕ
numeric_date claims name = date_of name (lookup name claims)

abbrev pub text_of : Str → Option Json → Outcome ClaimError (Option Str)
text_of name none = ok none
text_of name (some (text s)) =
    if ltb max_claim_bytes (length s) then err (too_long name) else ok (some s)
text_of name (some (boolean true)) = ok (some (codes "true"))
text_of name (some (boolean false)) = ok (some (codes "false"))
text_of name (some other) = err (not_text name)

unfoldable pub string_claim : Claims → Str → Outcome ClaimError (Option Str)
string_claim claims name = text_of name (lookup name claims)

-- `exp.Sub(iat) < 0 || exp.Sub(iat) > time.Duration(max)*time.Second`, where the subtraction
-- saturates and the product wraps around.
abbrev pub exceeds : ℕ → ℕ → Bool
exceeds lifetime limit = leb (2 ^ 63) limit || ltb limit lifetime

unfoldable pub is_too_long_lived : ℕ → ℕ → ℕ → Bool
is_too_long_lived exp iat seconds =
    ltb exp iat || exceeds (min (exp - iat) (2 ^ 63 - 1)) ((seconds * second) % 2 ^ 64)

abbrev pub is_text : Str → Option Json → Bool
is_text s (some (text t)) = t == s
is_text s other = false

abbrev pub is_one : Str → List (Option Str) → Bool
is_one s (some t ∷ []) = t == s
is_one s other = false

abbrev pub audience_of : Str → Option Json → Outcome ClaimError (Unit {0})
audience_of audience (some (text aud)) = reject (not (aud == audience)) wrong_audience
audience_of audience (some (array auds)) = reject (not (is_one audience auds)) not_single_audience
audience_of audience other = err no_audience

-- The check of `nbf`, which may be missing.
unfoldable pub check_not_before : Claims → ℕ → ℕ → Outcome ClaimError (Unit {0})
unfolding numeric_date
check_not_before claims skew now =
    if found (lookup (codes "nbf") claims)
    then (do nbf ← numeric_date claims (codes "nbf"); reject (ltb (now + skew) nbf) not_yet_valid)
    else ok tt

abbrev pub subject_of : Option Str → Outcome ClaimError Str
subject_of none = err no_subject
subject_of (some s) = if is_empty s then err no_subject else ok s

abbrev pub or_blank : Option Str → Str
or_blank none = []
or_blank (some s) = s

abbrev pub put : Str → Option Str → Map Str → Map Str
put name none exposed = exposed
put name (some v) exposed = insert name v exposed

-- the loop over `cfg.Claims`
unfoldable pub expose : Claims → Map Str → List Str → Outcome ClaimError (Map Str)
expose claims exposed [] = ok exposed
expose claims exposed (name ∷ names) = do
  v ← string_claim claims name
  expose claims (put name v exposed) names

abbrev pub is_allowed : List Str → Option Str → Bool
is_allowed allowed none = false
is_allowed allowed (some v) = contains allowed v

-- the loop over `cfg.Require`
unfoldable pub check_require : Claims → Map (List Str) → Outcome ClaimError (Unit {0})
check_require claims [] = ok tt
check_require claims ((name, allowed) ∷ rest) = do
  v ← string_claim claims name
  reject (not (is_allowed allowed v)) (unmet name)
  check_require claims rest

-- The checks of `exp`, `iat` and `nbf`.
unfoldable pub check_dates : Issuer → ℕ → ℕ → Claims → Outcome ClaimError (ℕ × ℕ)
unfolding numeric_date is_too_long_lived check_not_before
check_dates cfg skew now claims = do
  exp ← numeric_date claims (codes "exp")
  iat ← numeric_date claims (codes "iat")
  reject (is_too_long_lived exp iat cfg.max_token_lifetime_seconds)
      (lifetime_exceeded cfg.max_token_lifetime_seconds)
  reject (ltb (exp + skew) now) expired
  reject (ltb (now + skew) iat) from_future
  check_not_before claims skew now
  ok (exp, iat)

-- The subject and the token's own name.
unfoldable pub read_names : Claims → Outcome ClaimError (Str × Str)
unfolding string_claim
read_names claims = do
  named ← string_claim claims (codes "sub")
  sub ← subject_of named
  jti ← string_claim claims (codes "jti")
  ok (sub, or_blank jti)

-- `format` is `strconv.FormatFloat(v, 'f', -1, 64)` on whole numbers.
module _ (format : Float → Str) where
  abbrev pub within_bytes : Str → Option Str
  within_bytes s = if leb (length s) max_claim_bytes then some s else none

  abbrev pub audit_text : Option Json → Option Str
  audit_text (some (text s)) = within_bytes s
  audit_text (some (number v)) = if v.fraction then none else within_bytes (format v)
  audit_text other = none

  -- the loop over `cfg.AuditClaims`
  unfoldable pub record_claims : Claims → Map Str → List Str → Map Str
  record_claims claims recorded [] = recorded
  record_claims claims recorded (name ∷ names) =
      record_claims claims (put name (audit_text (lookup name claims)) recorded) names

  unfoldable pub identity : Issuer → ℕ → ℕ → Claims → Outcome ClaimError Identity
  unfolding check_dates read_names expose check_require record_claims
  identity cfg skew now claims = do
    reject (not (is_text cfg.issuer (lookup (codes "iss") claims))) wrong_issuer
    audience_of cfg.audience (lookup (codes "aud") claims)
    (exp, iat) ← check_dates cfg skew now claims
    (sub, jti) ← read_names claims
    exposed ← expose claims [] cfg.claims
    check_require claims cfg.require
    ok (record {
      issuer = cfg.name;
      issuer_url = cfg.issuer;
      subject = sub;
      token_id = jti;
      issued_at = iat;
      expiry = exp;
      claims = exposed;
      audit_claims = record_claims claims [] cfg.audit_claims;
    })
