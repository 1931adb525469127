-- ===== src/Auth/Registry.antt =====
-- internal/auth/auth.go: `newAuthenticator`. How the keys of an issuer are found is an argument, as in
-- the code; the verifier that holds them is the `verify` of the library.
use gh_token_broker.Base.{
  ℕ, ◌≡◌, ◌⊎◌, inl, inr, sym, ap, ◌∙◌, some, List, [], ◌∷◌, ◌++◌, Str, ◌==◌, ==_iff, if◌then◌else◌,
  eqb, is_empty, contains, Outcome, ok, ◌>>=◌, ◌>>◌, reject, wrap, >>=-eq-ok, reject->>,
  ok_injective, Some, Bool-cases,
}
use gh_token_broker.Base.Map.{lookup, insert, lookup-insert, lookup-nil}
use gh_token_broker.Perm.Levels.{found}
use gh_token_broker.Config.Types.{Issuer}
use gh_token_broker.Auth.Authenticate.{Authenticator}

pub data RegistryError (Failure : Type 0) : Type 0 where
  no_issuers : RegistryError Failure
  no_url no_audience no_algorithms no_lifetime duplicate_url : Str → RegistryError Failure
  no_keys : Str → Failure → RegistryError Failure

-- An authenticator with the algorithms of its issuers.
pub record Registry : Type 0 where
  pub authenticator : Authenticator
  pub algs : List Str

-- the loop over the algorithms of one issuer
unfoldable pub add_algorithms : List Str → List Str → List Str
add_algorithms algs [] = algs
add_algorithms algs (alg ∷ rest) =
    add_algorithms (if contains algs alg then algs else algs ++ (alg ∷ [])) rest

some_injective : {a b : Issuer} → some a ≡ some b → a ≡ b
some_injective h = cc

module _ (Failure : Type 0) (key_set : Issuer → Outcome Failure (Unit {0})) where
  -- one round of the loop over the issuers
  unfoldable pub register : Issuer → Registry → Outcome (RegistryError Failure) Registry
  register cfg r = do
    reject (is_empty cfg.issuer) (no_url cfg.name)
    reject (is_empty cfg.audience) (no_audience cfg.name)
    reject (is_empty cfg.algorithms) (no_algorithms cfg.name)
    reject (eqb cfg.max_token_lifetime_seconds 0) (no_lifetime cfg.name)
    reject (found (lookup cfg.issuer r.authenticator.issuers)) (duplicate_url cfg.issuer)
    wrap (no_keys cfg.name) (key_set cfg)
    ok (record {
      authenticator = record {
        issuers = insert cfg.issuer cfg r.authenticator.issuers;
        skew = r.authenticator.skew;
      };
      algs = add_algorithms r.algs cfg.algorithms;
    })

  unfoldable pub register_all : List Issuer → Registry → Outcome (RegistryError Failure) Registry
  register_all [] r = ok r
  register_all (cfg ∷ rest) r = register cfg r >>= register_all rest

  unfoldable pub new_authenticator : List Issuer → ℕ → Outcome (RegistryError Failure) Registry
  new_authenticator issuers skew = do
    reject (is_empty issuers) no_issuers
    register_all issuers
        (record { authenticator = record { issuers = []; skew = skew }; algs = [] })

-- What is registered under a URL is one of the issuers, and has this URL.
abbrev pub IsRegistered : List Issuer → Str → Issuer → Type 0
IsRegistered issuers url cfg = (cfg.issuer ≡ url) × Some (λ c. c ≡ cfg) issuers

module _ (Failure : Type 0) (key_set : Issuer → Outcome Failure (Unit {0})) where
  -- The issuers of a registry were registered before, or stand in the list.
  abbrev Known : Registry → List Issuer → Registry → Type 0
  Known r issuers r' =
      (url : Str) (cfg : Issuer)
      → lookup url r'.authenticator.issuers ≡ some cfg
      → (lookup url r.authenticator.issuers ≡ some cfg) ⊎ IsRegistered issuers url cfg

  register-ok :
      (cfg : Issuer) (r r' : Registry)
      → register Failure key_set cfg r ≡ ok r'
      → (r'.authenticator.issuers ≡ insert cfg.issuer cfg r.authenticator.issuers)
        × (r'.authenticator.skew ≡ r.authenticator.skew)
  unfolding register
  register-ok cfg r r' h0 =
      let (_, h1) = reject->> (is_empty cfg.issuer) (no_url cfg.name) _ h0 in
      let (_, h2) = reject->> (is_empty cfg.audience) (no_audience cfg.name) _ h1 in
      let (_, h3) = reject->> (is_empty cfg.algorithms) (no_algorithms cfg.name) _ h2 in
      let (_, h4) = reject->> (eqb cfg.max_token_lifetime_seconds 0) (no_lifetime cfg.name) _ h3 in
      let (_, h5) =
        reject->> (found (lookup cfg.issuer r.authenticator.issuers)) (duplicate_url cfg.issuer) _
          h4 in
      let (_, _, h6) = >>=-eq-ok (wrap (no_keys cfg.name) (key_set cfg)) _ h5 in
      let same = ok_injective h6 in
      (ap (λ s. s.authenticator.issuers) (sym same), ap (λ s. s.authenticator.skew) (sym same))

  register_all-Known :
      (issuers : List Issuer) (r r' : Registry)
      → register_all Failure key_set issuers r ≡ ok r'
      → Known r issuers r' × (r'.authenticator.skew ≡ r.authenticator.skew)
  unfolding register_all
  register_all-Known [] r r' h =
      let same = ok_injective h in
      (
        λ url cfg found. inl (ap (λ s. lookup url s.authenticator.issuers) same ∙ found),
        ap (λ s. s.authenticator.skew) (sym same),
      )
  register_all-Known (c ∷ rest) r r' h =
      let (r1, first, h1) = >>=-eq-ok (register Failure key_set c r) _ h in
      let (inserted, skew_1) = register-ok c r r1 first in
      let (known, skew_2) = register_all-Known rest r1 r' h1 in
      (
        λ url cfg found. elim (known url cfg found) [
          | inl before ↦ newly url cfg c r r1 rest inserted before
          | inr (same_url, listed) ↦ inr (same_url, inr listed)
        ],
        skew_2 ∙ skew_1,
      )
    where
      newly :
          (url : Str) (cfg c : Issuer) (r r1 : Registry) (rest : List Issuer)
          → r1.authenticator.issuers ≡ insert c.issuer c r.authenticator.issuers
          → lookup url r1.authenticator.issuers ≡ some cfg
          → (lookup url r.authenticator.issuers ≡ some cfg) ⊎ IsRegistered (c ∷ rest) url cfg
      newly url cfg c r r1 rest inserted found =
          let hit =
            sym (lookup-insert c.issuer url c r.authenticator.issuers)
            ∙ (ap (lookup url) (sym inserted) ∙ found) in
          elim (Bool-cases (c.issuer == url)) [
            | inl is ↦
                let same : c ≡ cfg = some_injective (rw is at hit) in
                inr (ap (λ i. i.issuer) (sym same) ∙ (==_iff c.issuer url).0 is, inl same)
            | inr is_not ↦ inl (rw is_not at hit)
          ]

  -- If `newAuthenticator` succeeds, then whatever is registered under a URL is one of the given
  -- issuers and has this URL, and the skew is the given one.
  pub new_authenticator-IsRegistered :
      (issuers : List Issuer) (skew : ℕ) (r : Registry)
      → new_authenticator Failure key_set issuers skew ≡ ok r
      → ((url : Str) (cfg : Issuer)
          → lookup url r.authenticator.issuers ≡ some cfg
          → IsRegistered issuers url cfg)
        × (r.authenticator.skew ≡ skew)
  unfolding new_authenticator
  new_authenticator-IsRegistered issuers skew r h =
      let (_, h1) = reject->> (is_empty issuers) no_issuers _ h in
      let (known, same_skew) = register_all-Known issuers _ r h1 in
      (
        λ url cfg found. elim (known url cfg found) [
          | inl before ↦ absurd (cc (lookup-nil {V = Issuer} url, before))
          | inr listed ↦ listed
        ],
        same_skew,
      )
