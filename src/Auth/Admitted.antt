-- ===== src/Auth/Admitted.antt =====
-- What a caller has proved whose token `identity` accepts.
use gh_token_broker.Base.{
  ℕ, ◌+◌, ◌*◌, ◌≤◌, ◌≡◌, ◌≢◌, ◌⊎◌, refl, sym, ap, inl, inr, true, false, not, Option, none, some,
  List, [], ◌∷◌, Str, codes, ==_iff, contains, All, arith, ok, >>=-eq-ok, reject->>, ok_injective,
  subst, is_empty, Bool-cases, ◌∙◌,
}
use gh_token_broker.Base.Map.{Map, lookup, lookup-insert, lookup-nil}
use gh_token_broker.Config.Types.{Issuer}
use gh_token_broker.Auth.Identity.{Identity}
use gh_token_broker.Auth.Dated.{HasBegun, check-ok, check_dates-ok}
use gh_token_broker.Auth.Spoken.{Says, string_claim-Says, string_claim-none, IsDate}
use gh_token_broker.Auth.Claims.{
  Float, Json, text, array, Claims, second, is_text, is_one, audience_of, string_claim, subject_of,
  put, expose, is_allowed, wrong_issuer, check_require, check_dates, read_names, identity, unmet,
  or_blank,
}

-- The claim is there with an allowed value.
abbrev pub IsMet : Claims → Str × List Str → Type 0
IsMet claims (name, allowed) = (v : Str) × Says claims name v × (contains allowed v ≡ true)

check_require-IsMet :
    (claims : Claims) (require : Map (List Str))
    → check_require claims require ≡ ok tt
    → All (IsMet claims) require
unfolding check_require
check_require-IsMet claims [] h = tt
check_require-IsMet claims ((name, allowed) ∷ rest) h =
    let (o, read, h') = >>=-eq-ok (string_claim claims name) _ h in
    let (met, h'') = reject->> (not (is_allowed allowed o)) (unmet name) _ h' in
    (met_of o read met, check_require-IsMet claims rest h'')
  where
    met_of :
        (o : Option Str)
        → string_claim claims name ≡ ok o
        → not (is_allowed allowed o) ≡ false
        → IsMet claims (name, allowed)
    met_of none read met = cc
    met_of (some v) read met = (v, string_claim-Says claims name v read, ground arith)

-- The entry at `k` comes from the token and was asked for.
abbrev pub IsExposed : Claims → List Str → Str → Str → Type 0
IsExposed claims names k v = (contains names k ≡ true) × Says claims k v

lookup-put :
    (name k v : Str) (o : Option Str) (m : Map Str)
    → lookup k (put name o m) ≡ some v
    → ((name ≡ k) × (o ≡ some v)) ⊎ (lookup k m ≡ some v)
lookup-put name k v none m h = inr h
lookup-put name k v (some w) m h = ground (arith, lookup-insert name k w m, ==_iff name k)

expose-IsExposed :
    (claims : Claims) (names : List Str) (m out : Map Str)
    → expose claims m names ≡ ok out
    → (k v : Str) → lookup k out ≡ some v
    → IsExposed claims names k v ⊎ (lookup k m ≡ some v)
unfolding expose contains
expose-IsExposed claims [] m out h k v e = let same : out ≡ m = cc in inr (rw same at e)
expose-IsExposed claims (name ∷ names) m out h k v e =
    let (o, read, h') = >>=-eq-ok (string_claim claims name) _ h in
    elim (expose-IsExposed claims names (put name o m) out h' k v e) [
      | inl (asked, from_token) ↦ inl (ground arith, from_token)
      | inr there ↦ elim (lookup-put name k v o m there) [
        | inl (same, value) ↦ inl (
          ground (arith, ==_iff name k),
          string_claim-Says claims k v (rw (sym same, read, value) refl),
        )
        | inr before ↦ inr before
      ]
    ]

-- The token's own name, which may be missing.
abbrev pub IsNamed : Claims → Str → Type 0
IsNamed claims jti =
    ((lookup (codes "jti") claims ≡ none) × (jti ≡ [])) ⊎ Says claims (codes "jti") jti

pub record IsAdmitted (cfg : Issuer) (skew now : ℕ) (claims : Claims) (id : Identity) : Type 0 where
  pub by_issuer : lookup (codes "iss") claims ≡ some (text cfg.issuer)
  pub for_audience :
      (lookup (codes "aud") claims ≡ some (text cfg.audience))
      ⊎ (lookup (codes "aud") claims ≡ some (array (some cfg.audience ∷ [])))
  pub same_issuer : id.issuer ≡ cfg.name
  pub same_url : id.issuer_url ≡ cfg.issuer
  pub expires : IsDate claims (codes "exp") id.expiry
  pub was_issued : IsDate claims (codes "iat") id.issued_at
  pub not_backwards : id.issued_at ≤ id.expiry
  pub short_lived : id.expiry ≤ id.issued_at + cfg.max_token_lifetime_seconds * second
  pub not_expired : now ≤ id.expiry + skew
  pub not_future : id.issued_at ≤ now + skew
  pub has_begun : HasBegun claims skew now
  pub about : Says claims (codes "sub") id.subject
  pub has_subject : id.subject ≢ []
  pub named : IsNamed claims id.token_id
  pub exposed : (k v : Str) → lookup k id.claims ≡ some v → IsExposed claims cfg.claims k v
  pub required : All (IsMet claims) cfg.require

is_text-true : (s : Str) (o : Option Json) → is_text s o ≡ true → o ≡ some (text s)
is_text-true s (some (text t)) h = ground (arith, ==_iff t s)
is_text-true s none h = cc
is_text-true s (some other) h = cc

is_one-true : (s : Str) (auds : List (Option Str)) → is_one s auds ≡ true → auds ≡ some s ∷ []
is_one-true s (some t ∷ []) h = ground (arith, ==_iff t s)
is_one-true s other h = cc

audience_of-ok :
    (s : Str) (o : Option Json)
    → audience_of s o ≡ ok tt
    → (o ≡ some (text s)) ⊎ (o ≡ some (array (some s ∷ [])))
audience_of-ok s (some (text t)) h = inl (ground (arith, ==_iff t s))
audience_of-ok s (some (array auds)) h = inr (cc (is_one-true s auds (ground arith)))
audience_of-ok s other h = cc

subject_of-ok : (o : Option Str) (s : Str) → subject_of o ≡ ok s → (o ≡ some s) × (s ≢ [])
subject_of-ok none s h = cc
subject_of-ok (some t) s h = elim (Bool-cases (is_empty t)) [
  | inl blank ↦ let bad = rw blank at h in cc
  | inr full ↦
      let same : t ≡ s = ok_injective (rw full at h) in
      (ap some same, subst (λ x. x ≢ []) same (λ e. ground arith))
]

jti-IsNamed :
    (claims : Claims) (o : Option Str)
    → string_claim claims (codes "jti") ≡ ok o
    → IsNamed claims (or_blank o)
jti-IsNamed claims none h = inl (string_claim-none claims (codes "jti") h, refl)
jti-IsNamed claims (some v) h = inr (string_claim-Says claims (codes "jti") v h)

abbrev AreNames : Claims → Str × Str → Type 0
AreNames claims (sub, jti) = Says claims (codes "sub") sub × (sub ≢ []) × IsNamed claims jti

read_names-ok :
    (claims : Claims) (sub jti : Str)
    → read_names claims ≡ ok (sub, jti)
    → AreNames claims (sub, jti)
unfolding read_names
read_names-ok claims sub jti h =
    let (named, got, h1) = >>=-eq-ok (string_claim claims (codes "sub")) _ h in
    let (s, ok_s, h2) = >>=-eq-ok (subject_of named) _ h1 in
    let (j, ok_j, h3) = >>=-eq-ok (string_claim claims (codes "jti")) _ h2 in
    let (is_s, full) = subject_of-ok named s ok_s in
    subst (AreNames claims) (ok_injective h3)
      (string_claim-Says claims (codes "sub") s (got ∙ ap ok is_s), full, jti-IsNamed claims j ok_j)

-- If `identity` accepts the claims of a token, then they name exactly the issuer and its audience,
-- the dates of the caller are the `exp` and `iat` of the token, which is issued before it expires
-- and lives no longer than the issuer allows, up to the skew the token has not expired, is not
-- issued in the future and its `nbf`, if there is one, has come, the subject is the token's `sub`
-- and not empty, every exposed claim is one that the issuer declares with its value in the token,
-- and every required claim has an allowed value.
pub identity-IsAdmitted :
    (format : Float → Str) (cfg : Issuer) (skew now : ℕ) (claims : Claims) (id : Identity)
    → identity format cfg skew now claims ≡ ok id
    → IsAdmitted cfg skew now claims id
unfolding identity
identity-IsAdmitted format cfg skew now claims id h0 =
    let (iss, h1) =
      reject->> (not (is_text cfg.issuer (lookup (codes "iss") claims))) wrong_issuer _ h0 in
    let (aud, h2) = check-ok (audience_of cfg.audience (lookup (codes "aud") claims)) _ h1 in
    let ((exp, iat), dated, h3) = >>=-eq-ok (check_dates cfg skew now claims) _ h2 in
    let ((sub, jti), named, h4) = >>=-eq-ok (read_names claims) _ h3 in
    let (shown, got_shown, h5) = >>=-eq-ok (expose claims [] cfg.claims) _ h4 in
    let (met, h6) = check-ok (check_require claims cfg.require) _ h5 in
    let (exp_date, iat_date, forward, short, alive, past, begun) =
      check_dates-ok cfg skew now claims exp iat dated in
    let (about, full, own_name) = read_names-ok claims sub jti named in
    subst (IsAdmitted cfg skew now claims) (ok_injective h6) (record {
      by_issuer = is_text-true cfg.issuer _ (ground arith);
      for_audience = audience_of-ok cfg.audience _ aud;
      same_issuer = refl;
      same_url = refl;
      expires = exp_date;
      was_issued = iat_date;
      not_backwards = forward;
      short_lived = short;
      not_expired = alive;
      not_future = past;
      has_begun = begun;
      about = about;
      has_subject = full;
      named = own_name;
      exposed = λ k v e. exposed_only shown got_shown k v e;
      required = check_require-IsMet claims cfg.require met;
    })
  where
    exposed_only :
        (shown : Map Str)
        → expose claims [] cfg.claims ≡ ok shown
        → (k v : Str) → lookup k shown ≡ some v
        → IsExposed claims cfg.claims k v
    exposed_only shown got k v e = elim (expose-IsExposed claims cfg.claims [] shown got k v e) [
      | inl exposed ↦ exposed
      | inr none_there ↦ cc (none_there, lookup-nil {V = Str} k)
    ]
