-- ===== src/Config/Valid.antt =====
-- Which issuers `validateIssuer` accepts.
use gh_token_broker.Base.{
  ◌≤◌, ◌≡◌, ◌≢◌, ◌⊎◌, inl, inr, refl, sym, ap, ◌∙◌, Bool, true, false, not, ◌&&◌, ◌||◌, Option,
  none, some, List, [], ◌∷◌, ◌++◌, Str, ◌==◌, ==_iff, arith, all, is_empty, contains, eqb_iff, ltb,
  Outcome, ok, wrap, each, each-All, All-map, if◌then◌else◌, wrap-eq-ok, >>=-eq-ok, reject->>,
  reject-ok, All, Bool-cases, Option-cases,
}
use gh_token_broker.Base.Map.{Map, lookup}
use gh_token_broker.Base.Sort.{sort, contains-sort}
use gh_token_broker.Config.Types.{Issuer, is_preset, github_preset}
use gh_token_broker.Config.Claims.{github_claims}
use gh_token_broker.Config.Defaults.{github_issuer_host, github_issuer_url}
use gh_token_broker.Config.Urls.{UrlParts, UrlLib, UrlError, bad_url, canonical, parse_issuer_url}
use gh_token_broker.Config.Issuers.{
  match_issuer_name, match_enterprise_slug, is_printable, registered_claims, allowed_algorithms,
  check_claim_name, check_unique, check_required, or_none, cut_prefix, equal_lists, check_preset,
  check_plain, validate_issuer, max_token_lifetime_limit, bad_name, unknown_preset, no_audience,
  bad_lifetime, fixed_claims, preset_only, preset_issuer, no_claims, no_require, bad_claim,
  bad_require, duplicate_claim, no_values, empty_value, bad_algorithm, empty_name, unprintable,
  registered, IssuerError,
}
use gh_token_broker.Config.Distinct.{Distinct, Unseen, Unseen-cons}
use gh_token_broker.Policy.Engine.{keys}

-- A claim that configuration may name: printable ASCII, and not one that the broker verifies.
pub record IsClaimName (name : Str) : Type 0 where
  pub nonempty : name ≢ []
  pub printable : all is_printable name ≡ true
  pub free : contains registered_claims name ≡ false

-- An issuer of GitHub Actions: the claims of the preset, and the public issuer or an enterprise's.
pub record IsVetted (iss : Issuer) : Type 0 where
  pub claims : iss.claims ≡ github_claims
  pub url :
      (iss.issuer ≡ github_issuer_url)
      ⊎ ((slug : Str) × (iss.issuer ≡ github_issuer_url ++ (b'/' ∷ slug))
          × (match_enterprise_slug slug ≡ true))

-- Any other issuer: it is not GitHub's host, declares claims, and requires some.
pub record IsPlain (lib : UrlLib) (u : UrlParts) (iss : Issuer) : Type 0 where
  pub host : lib.hostname u ≢ github_issuer_host
  pub claims : iss.claims ≢ []
  pub require : iss.require ≢ []

pub record IsValidIssuer (lib : UrlLib) (iss : Issuer) : Type 0 where
  pub u : UrlParts
  pub name : match_issuer_name iss.name ≡ true
  pub audience : iss.audience ≢ []
  pub parsed : lib.parse iss.issuer ≡ some u
  pub canonical : bad_url lib iss.issuer u ≡ false
  pub kind : ((iss.preset ≡ github_preset) × IsVetted iss) ⊎ ((iss.preset ≡ []) × IsPlain lib u iss)
  pub algorithms : All (λ alg. contains allowed_algorithms alg ≡ true) iss.algorithms
  pub lifetime : (1 ≤ iss.max_token_lifetime_seconds) × (iss.max_token_lifetime_seconds ≤ 86400)
  pub claims : All IsClaimName iss.claims × Distinct iss.claims
  pub require :
      (c : Str) (values : List Str)
      → lookup c iss.require ≡ some values
      → IsClaimName c × (values ≢ []) × (contains values [] ≡ false)

pub is_empty-ne {ℓ} : {A : Type ℓ} (xs : List A) → is_empty xs ≡ false → xs ≢ []
is_empty-ne [] h = absurd (cc h)
is_empty-ne (x ∷ xs) h = λ e. cc e

pub empty_nil {ℓ} : {A : Type ℓ} (xs : List A) → is_empty xs ≡ true → xs ≡ []
empty_nil [] h = refl
empty_nil (x ∷ xs) h = absurd (cc h)

not-false : (b : Bool) → not b ≡ false → b ≡ true
not-false b h = ground arith

check_claim_name-ok : (c : Str) → check_claim_name c ≡ ok tt → IsClaimName c
unfolding check_claim_name
check_claim_name-ok c h0 =
    let (full, h1) = reject->> (is_empty c) empty_name _ h0 in
    let (plain, h2) = reject->> (not (all is_printable c)) (unprintable c) _ h1 in
    record {
      nonempty = is_empty-ne c full;
      printable = ground arith;
      free = reject-ok (contains registered_claims c) (registered c) h2;
    }

check_unique-ok :
    {E : Type 0} (check : Str → Outcome E (Unit {0})) (duplicate : Str → E) (seen xs : List Str)
    → check_unique check duplicate seen xs ≡ ok tt
    → All (λ c. check c ≡ ok tt) xs × Unseen seen xs × Distinct xs
unfolding check_unique
check_unique-ok check duplicate seen [] h = (tt, tt, tt)
check_unique-ok check duplicate seen (c ∷ xs) h0 =
    let (u, first, h1) = >>=-eq-ok (check c) _ h0 in
    let (fresh, h2) = reject->> (contains seen c) (duplicate c) _ h1 in
    let (checked, rest, apart) = check_unique-ok check duplicate (c ∷ seen) xs h2 in
    let (old, new) = Unseen-cons c seen xs rest in ((first, checked), (fresh, old), (new, apart))

equal_lists-ok : (xs ys : List Str) → equal_lists xs ys ≡ true → xs ≡ ys
unfolding equal_lists
equal_lists-ok [] [] h = refl
equal_lists-ok [] (y ∷ ys) h = absurd (cc h)
equal_lists-ok (x ∷ xs) [] h = absurd (cc h)
equal_lists-ok (x ∷ xs) (y ∷ ys) h = ground (arith, ==_iff x y, equal_lists-ok xs ys)

cut_prefix-some : (p s rest : Str) → cut_prefix p s ≡ some rest → s ≡ p ++ rest
unfolding cut_prefix
cut_prefix-some [] s rest h = cc
cut_prefix-some (p ∷ ps) [] rest h = absurd (cc h)
cut_prefix-some (p ∷ ps) (c ∷ s) rest h = ground (arith, eqb_iff p c, cut_prefix-some ps s rest)

check_preset-ok : (iss : Issuer) → check_preset iss ≡ ok tt → IsVetted iss
unfolding check_preset
check_preset-ok iss h0 =
    let (same, h1) = reject->> (not (equal_lists iss.claims github_claims)) fixed_claims _ h0 in
    let last = reject-ok (not (iss.issuer == github_issuer_url) && _) preset_only h1 in
    record {
      claims = equal_lists-ok iss.claims github_claims (ground arith);
      url = elim (Bool-cases (iss.issuer == github_issuer_url)) [
        | inl public ↦ inl ((==_iff iss.issuer github_issuer_url).0 public)
        | inr other ↦
            elim (Option-cases (cut_prefix (github_issuer_url ++ (b'/' ∷ [])) iss.issuer)) [
              | inl no_prefix ↦ absurd (cc (rw (other, no_prefix) at last))
              | inr (slug, found) ↦
                  let matched : not (match_enterprise_slug slug) ≡ false =
                    rw (other, found) at last in
                  inr (
                    slug,
                    cut_prefix-some (github_issuer_url ++ (b'/' ∷ [])) iss.issuer slug found,
                    ground arith,
                  )
            ]
      ];
    }

check_plain-ok :
    (lib : UrlLib) (u : UrlParts) (iss : Issuer) → check_plain lib u iss ≡ ok tt → IsPlain lib u iss
unfolding check_plain
check_plain-ok lib u iss h0 =
    let (host, h1) = reject->> (lib.hostname u == github_issuer_host) preset_issuer _ h0 in
    let (claims, h2) = reject->> (is_empty iss.claims) no_claims _ h1 in
    record {
      host = λ e. ground (arith, ==_iff (lib.hostname u) github_issuer_host);
      claims = is_empty-ne iss.claims claims;
      require = is_empty-ne iss.require (reject-ok (is_empty iss.require) no_require h2);
    }

canonical-ok :
    (lib : UrlLib) (raw : Str) (u : UrlParts) (o : Option UrlParts)
    → canonical lib raw o ≡ ok u
    → (o ≡ some u) × (bad_url lib raw u ≡ false)
canonical-ok lib raw u none h = absurd (cc h)
canonical-ok lib raw u (some v) h = elim (Bool-cases (bad_url lib raw v)) [
  | inl bad ↦ absurd (cc (rw bad at h))
  | inr good ↦
      let h' : ◌≡◌ {A = Outcome UrlError UrlParts} (ok v) (ok u) = rw good at h in
      let same : v ≡ u = cc in (ap some same, rw same at good)
]

parse_issuer_url-ok :
    (lib : UrlLib) (raw : Str) (u : UrlParts)
    → parse_issuer_url lib raw ≡ ok u
    → (lib.parse raw ≡ some u) × (bad_url lib raw u ≡ false)
unfolding parse_issuer_url
parse_issuer_url-ok lib raw u h = elim (Bool-cases (is_empty raw)) [
  | inl none_given ↦ absurd (cc (rw none_given at h))
  | inr given ↦ canonical-ok lib raw u (lib.parse raw) (rw given at h)
]

contains-keys :
    (c : Str) (m : Map (List Str)) (values : List Str)
    → lookup c m ≡ some values
    → contains (keys m) c ≡ true
unfolding contains lookup
contains-keys c [] values h = absurd (cc h)
contains-keys c ((k, v) ∷ m) values h = ground (arith, contains-keys c m values)

each-contains :
    {E : Type 0} (step : Str → Outcome E (Unit {0})) (xs : List Str) (c : Str)
    → each step xs ≡ ok tt
    → contains xs c ≡ true
    → step c ≡ ok tt
unfolding contains each
each-contains step [] c h m = absurd (cc m)
each-contains step (x ∷ xs) c h m =
    let (u, first, rest) = >>=-eq-ok (step x) _ h in
    elim (Bool-cases (x == c)) [
      | inl is ↦ ap step (sym ((==_iff x c).0 is)) ∙ first
      | inr is_not ↦ each-contains step xs c rest (rw is_not at m)
    ]

check_required-ok :
    (require : Map (List Str)) (c : Str) (values : List Str)
    → check_required require c ≡ ok tt
    → lookup c require ≡ some values
    → IsClaimName c × (values ≢ []) × (contains values [] ≡ false)
unfolding check_required
check_required-ok require c values h0 found =
    let (u, name, h1) = >>=-eq-ok (wrap bad_require (check_claim_name c)) _ h0 in
    let (full, h2) = reject->> (is_empty (or_none (lookup c require))) (no_values c) _ h1 in
    let last = reject-ok (contains (or_none (lookup c require)) []) (empty_value c) h2 in
    (
      check_claim_name-ok c (wrap-eq-ok bad_require (check_claim_name c) name),
      is_empty-ne values (rw found at full),
      rw found at last,
    )

kind-cases :
    (lib : UrlLib) (u : UrlParts) (iss : Issuer)
    → (not (is_empty iss.preset) && not (is_preset iss)) ≡ false
    → (if is_preset iss then check_preset iss else check_plain lib u iss) ≡ ok tt
    → ((iss.preset ≡ github_preset) × IsVetted iss) ⊎ ((iss.preset ≡ []) × IsPlain lib u iss)
unfolding is_preset
kind-cases lib u iss known h = elim (Bool-cases (iss.preset == github_preset)) [
  | inl preset ↦
      inl ((==_iff iss.preset github_preset).0 preset, check_preset-ok iss (rw preset at h))
  | inr plain ↦ inr (empty_nil iss.preset (ground arith), check_plain-ok lib u iss (rw plain at h))
]

-- What `validateIssuer` accepts is a valid issuer: its name, preset and audience, a canonical URL,
-- allowed algorithms, a lifetime within a day, distinct claim names, and nonempty requirements.
pub validate_issuer-IsValidIssuer :
    (lib : UrlLib) (iss : Issuer) → validate_issuer lib iss ≡ ok tt → IsValidIssuer lib iss
unfolding validate_issuer
validate_issuer-IsValidIssuer lib iss h0 =
    let (name, h1) = reject->> (not (match_issuer_name iss.name)) (bad_name iss.name) _ h0 in
    let (known, h2) =
      reject->> (not (is_empty iss.preset) && not (is_preset iss)) (unknown_preset iss.preset) _
        h1 in
    let (audience, h3) = reject->> (is_empty iss.audience) no_audience _ h2 in
    let (u, parsed, h4) =
      >>=-eq-ok (wrap IssuerError.bad_url (parse_issuer_url lib iss.issuer)) _ h3 in
    let (parsed_u, canonical_u) =
      parse_issuer_url-ok lib iss.issuer u (wrap-eq-ok IssuerError.bad_url _ parsed) in
    let (u5, kind, h5) =
      >>=-eq-ok (if is_preset iss then check_preset iss else check_plain lib u iss) _ h4 in
    let (u6, algs, h6) = >>=-eq-ok (each _ iss.algorithms) _ h5 in
    let (life, h7) =
      reject->>
        (ltb iss.max_token_lifetime_seconds 1
          || ltb max_token_lifetime_limit iss.max_token_lifetime_seconds)
        bad_lifetime _ h6 in
    let (u8, names, h8) =
      >>=-eq-ok
        (check_unique (λ c. wrap bad_claim (check_claim_name c)) duplicate_claim [] iss.claims) _
        h7 in
    let (checked, _, apart) =
      check_unique-ok (λ c. wrap bad_claim (check_claim_name c)) duplicate_claim [] iss.claims
        names in
    record {
      u = u;
      name = ground arith;
      audience = is_empty-ne iss.audience audience;
      parsed = parsed_u;
      canonical = canonical_u;
      kind = kind-cases lib u iss known kind;
      algorithms =
          All-map iss.algorithms
            (λ alg free.
              not-false _
                (reject-ok (not (contains allowed_algorithms alg)) (bad_algorithm alg) free))
            (each-All _ iss.algorithms algs);
      lifetime = ground arith;
      claims = (
        All-map iss.claims
            (λ c good. check_claim_name-ok c (wrap-eq-ok bad_claim (check_claim_name c) good))
            checked,
        apart,
      );
      require = λ c values found.
          let member =
            contains-sort (keys iss.require) c ∙ contains-keys c iss.require values found in
          check_required-ok iss.require c values
            (each-contains (check_required iss.require) (sort (keys iss.require)) c h8 member)
            found;
    }
