-- ===== src/Auth/Dated.antt =====
-- What the checks of `exp`, `iat` and `nbf` in internal/auth/auth.go have shown.
use gh_token_broker.Base.{
  ℕ, ◌+◌, ◌*◌, ◌≤◌, ◌≡◌, ◌⊎◌, refl, inl, inr, false, none, some, codes, ltb, arith, Outcome, ok,
  err, ◌>>◌, >>=-eq-ok, reject->>, ok_injective, subst, Option-cases, reject-ok,
}
use gh_token_broker.Base.Map.{lookup}
use gh_token_broker.Config.Types.{Issuer}
use gh_token_broker.Auth.Spoken.{IsDate, date_of-ok, numeric_date-IsDate}
use gh_token_broker.Auth.Claims.{
  Claims, ClaimError, second, numeric_date, is_too_long_lived, check_not_before, expired,
  from_future, lifetime_exceeded, check_dates, date_of, numeric_date, not_yet_valid,
}

-- The token may be used at the time `now`: there is no `nbf`, or it has come, up to the skew.
abbrev pub HasBegun : Claims → ℕ → ℕ → Type 0
HasBegun claims skew now =
    (lookup (codes "nbf") claims ≡ none)
    ⊎ ((t : ℕ) × IsDate claims (codes "nbf") t × (t ≤ now + skew))

not_too_long_lived :
    (exp iat seconds : ℕ)
    → is_too_long_lived exp iat seconds ≡ false
    → (iat ≤ exp) × (exp ≤ iat + seconds * second)
unfolding is_too_long_lived
not_too_long_lived exp iat seconds h = ground arith

pub check-ok :
    {A : Type 0} (m : Outcome ClaimError (Unit {0})) (rest : Outcome ClaimError A) {a : A}
    → (m >> rest) ≡ ok a
    → (m ≡ ok tt) × (rest ≡ ok a)
check-ok (ok u) rest h = (refl, h)
check-ok (err e) rest h = cc

pub le_of_ltb : (a b : ℕ) → ltb a b ≡ false → b ≤ a
le_of_ltb a b h = ground arith

check_not_before-HasBegun :
    (claims : Claims) (skew now : ℕ)
    → check_not_before claims skew now ≡ ok tt
    → HasBegun claims skew now
unfolding check_not_before
check_not_before-HasBegun claims skew now h = elim (Option-cases (lookup (codes "nbf") claims)) [
  | inl missing ↦ inl missing
  | inr (j, there) ↦
      let (t, dated, h1) = >>=-eq-ok (date_of (codes "nbf") (some j)) _ (rw there at h) in
      inr (
        t,
        rw there (date_of-ok (codes "nbf") (some j) t dated),
        le_of_ltb (now + skew) t (reject-ok (ltb (now + skew) t) not_yet_valid h1),
      )
]

abbrev InTime : Issuer → ℕ → ℕ → Claims → ℕ × ℕ → Type 0
InTime cfg skew now claims (exp, iat) =
    IsDate claims (codes "exp") exp
    × IsDate claims (codes "iat") iat
    × (iat ≤ exp)
    × (exp ≤ iat + cfg.max_token_lifetime_seconds * second)
    × (now ≤ exp + skew)
    × (iat ≤ now + skew)
    × HasBegun claims skew now

pub check_dates-ok :
    (cfg : Issuer) (skew now : ℕ) (claims : Claims) (exp iat : ℕ)
    → check_dates cfg skew now claims ≡ ok (exp, iat)
    → InTime cfg skew now claims (exp, iat)
unfolding check_dates
check_dates-ok cfg skew now claims exp iat h =
    let (e, got_e, h1) = >>=-eq-ok (numeric_date claims (codes "exp")) _ h in
    let (i, got_i, h2) = >>=-eq-ok (numeric_date claims (codes "iat")) _ h1 in
    let (life, h3) =
      reject->> (is_too_long_lived e i cfg.max_token_lifetime_seconds)
        (lifetime_exceeded cfg.max_token_lifetime_seconds) _ h2 in
    let (alive, h4) = reject->> (ltb (e + skew) now) expired _ h3 in
    let (past, h5) = reject->> (ltb (now + skew) i) from_future _ h4 in
    let (begun, h6) = check-ok (check_not_before claims skew now) _ h5 in
    let same : (e, i) ≡ (exp, iat) = ok_injective h6 in
    let (forward, short) = not_too_long_lived e i cfg.max_token_lifetime_seconds life in
    subst (InTime cfg skew now claims) same (
      numeric_date-IsDate claims (codes "exp") e got_e,
      numeric_date-IsDate claims (codes "iat") i got_i,
      forward,
      short,
      le_of_ltb (e + skew) now alive,
      le_of_ltb (now + skew) i past,
      check_not_before-HasBegun claims skew now begun,
    )
