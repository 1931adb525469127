-- ===== src/Perm/Levels.antt =====
-- internal/perm/perm.go: permission levels, and which levels a key supports.
use gh_token_broker.Base.{
  ℕ, zero, suc, ◌≤◌, ◌<◌, ◌≡◌, refl, ◌↔◌, Bool, true, false, Option, none, some, List, [], ◌∷◌,
  arith, Str, ◌==◌, ==_iff, if◌then◌else◌, eqb, contains,
}
use gh_token_broker.Base.Map.{Map, lookup}
use gh_token_broker.Perm.Catalog.{read, write, admin, catalog}

unfoldable pub levels : Map ℕ
levels = (read, 1) ∷ (write, 2) ∷ (admin, 3) ∷ []

-- The comma-ok flag of a map read.
abbrev pub found {ℓ} : {A : Type ℓ} → Option A → Bool
found none = false
found (some a) = true

unfoldable pub valid_key : Str → Bool
valid_key k = found (lookup k catalog)

unfoldable pub valid_level : Str → Bool
unfolding levels lookup
valid_level level = found (lookup level levels)

-- A read of an int map: 0 for a missing key.
abbrev pub or_zero : Option ℕ → ℕ
or_zero none = 0
or_zero (some n) = n

unfoldable pub level_ord : Str → ℕ
unfolding levels lookup
level_ord level = or_zero (lookup level levels)

-- the loop of `levelName`
unfoldable pub level_name_in : ℕ → Map ℕ → Str
level_name_in n [] = []
level_name_in n ((name, v) ∷ rest) = if eqb v n then name else level_name_in n rest

unfoldable pub level_name : ℕ → Str
unfolding levels level_name_in
level_name n = level_name_in n levels

unfoldable pub allows : Option (List Str) → Str → Bool
allows none level = false
allows (some allowed) level = contains allowed level

unfoldable pub valid_key_level : Str → Str → Bool
unfolding allows
valid_key_level key level = allows (lookup key catalog) level

pub level_ord-le : (v : Str) → level_ord v ≤ 3
unfolding level_ord
level_ord-le v = ground arith

-- The valid levels are those with a positive ordinal.
pub valid_level_iff : (v : Str) → (valid_level v ≡ true) ↔ (0 < level_ord v)
unfolding valid_level level_ord
valid_level_iff v = ground arith

pub valid_level-cases : (v : Str) → valid_level v ≡ true → v ≡ level_name (level_ord v)
unfolding valid_level level_ord level_name
valid_level-cases v h = ground (arith, ==_iff read v, ==_iff write v, ==_iff admin v)

pub level_ord-level_name : (n : ℕ) → 0 < n → n ≤ 3 → level_ord (level_name n) ≡ n
unfolding level_ord level_name ◌==◌
level_ord-level_name (suc zero) p q = refl
level_ord-level_name (suc (suc zero)) p q = refl
level_ord-level_name (suc (suc (suc zero))) p q = refl
level_ord-level_name n p q = absurd (omega arith)
