-- ===== src/Auth/Spoken.antt =====
-- What the readers of claims, `stringClaim` and `numericDate` of internal/auth/auth.go, have read.
use gh_token_broker.Base.{
  ℕ, ◌*◌, ◌≤◌, ◌≡◌, ◌⊎◌, refl, sym, ap, inl, inr, true, false, Option, none, some, Str, codes, ltb,
  arith, ok, ok_injective, subst, length, Bool-cases,
}
use gh_token_broker.Base.Map.{lookup}
use gh_token_broker.Auth.Claims.{
  Float, Json, text, Claims, second, string_claim, text_of, date_of, number, boolean,
  is_out_of_range, numeric_date, max_claim_bytes,
}

-- The claim is this text, of at most 1024 bytes, or the Boolean that the text spells.
abbrev pub Says : Claims → Str → Str → Type 0
Says claims name v =
    ((lookup name claims ≡ some (text v)) × (length v ≤ 1024))
    ⊎ ((lookup name claims ≡ some (boolean true)) × (v ≡ codes "true"))
    ⊎ ((lookup name claims ≡ some (boolean false)) × (v ≡ codes "false"))

some_injective : {A : Type 0} {a b : A} → some a ≡ some b → a ≡ b
some_injective e = cc

text_of-some :
    (name : Str) (o : Option Json) (v : Str)
    → text_of name o ≡ ok (some v)
    → ((o ≡ some (text v)) × (length v ≤ 1024))
      ⊎ ((o ≡ some (boolean true)) × (v ≡ codes "true"))
      ⊎ ((o ≡ some (boolean false)) × (v ≡ codes "false"))
text_of-some name none v h = cc
text_of-some name (some (text s)) v h = elim (Bool-cases (ltb max_claim_bytes (length s))) [
  | inl long ↦ let bad = rw long at h in cc
  | inr short ↦
      let same : s ≡ v = some_injective (ok_injective (rw short at h)) in
      inl (ap (λ x. some (text x)) same, subst (λ x. length x ≤ 1024) same (ground arith))
]
text_of-some name (some (boolean true)) v h = inr (inl (refl, cc))
text_of-some name (some (boolean false)) v h = inr (inr (refl, cc))
text_of-some name (some other) v h = cc

text_of-none : (name : Str) (o : Option Json) → text_of name o ≡ ok none → o ≡ none
text_of-none name none h = refl
text_of-none name (some (text s)) h = elim (Bool-cases (ltb max_claim_bytes (length s))) [
  | inl long ↦ let bad = rw long at h in cc
  | inr short ↦ let bad = rw short at h in cc
]
text_of-none name (some (boolean true)) h = cc
text_of-none name (some (boolean false)) h = cc
text_of-none name (some other) h = cc

pub string_claim-Says :
    (claims : Claims) (name v : Str) → string_claim claims name ≡ ok (some v) → Says claims name v
unfolding string_claim
string_claim-Says claims name v h = text_of-some name (lookup name claims) v h

-- The claim is a number of seconds between 0 and 2^53, and `t` is its whole part.
abbrev pub IsRead : Option Json → ℕ → Type 0
IsRead o t =
    (v : Float) × (o ≡ some (number v))
    × (v.negative ≡ true → v.whole ≡ 0)
    × (v.whole ≤ 9_007_199_254_740_992)
    × (t ≡ v.whole * second)

abbrev pub IsDate : Claims → Str → ℕ → Type 0
IsDate claims name t = IsRead (lookup name claims) t

pub date_of-ok : (name : Str) (o : Option Json) (t : ℕ) → date_of name o ≡ ok t → IsRead o t
date_of-ok name (some (number v)) t h = elim (Bool-cases (is_out_of_range v)) [
  | inl out ↦ let bad = rw out at h in cc
  | inr fine ↦ (v, refl, λ e. ground arith, ground arith, sym (ok_injective (rw fine at h)))
]
date_of-ok name other t h = cc

pub numeric_date-IsDate :
    (claims : Claims) (name : Str) (t : ℕ) → numeric_date claims name ≡ ok t → IsDate claims name t
unfolding numeric_date
numeric_date-IsDate claims name t h = date_of-ok name (lookup name claims) t h

pub string_claim-none :
    (claims : Claims) (name : Str) → string_claim claims name ≡ ok none → lookup name claims ≡ none
unfolding string_claim
string_claim-none claims name h = text_of-none name (lookup name claims) h
