-- ===== src/Auth/Identity.antt =====
-- internal/auth/auth.go: the verified caller. Points in time are nanoseconds since 1970.
use gh_token_broker.Base.{ℕ, Str}
use gh_token_broker.Base.Map.{Map}

pub record Identity : Type 0 where
  pub issuer : Str
  pub issuer_url : Str
  pub subject : Str
  pub token_id : Str
  pub issued_at : ℕ
  pub expiry : ℕ
  pub claims : Map Str
  pub audit_claims : Map Str
