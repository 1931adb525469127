-- ===== src/Perm/Rank.antt =====
-- The abstract view of a permission map: for each key the ordinal of the level that it grants,
-- 0 where it grants nothing. Normalising does not change it.
use gh_token_broker.Base.{
  ℕ, ◌≤◌, ◌<◌, ◌≡◌, refl, true, Option, none, some, [], ◌∷◌, arith, Str, ==_iff, if◌then◌else◌, inl,
  inr, Option-cases,
}
use gh_token_broker.Base.Map.{lookup, insert, IsMap, lookup-insert, lookup-nil, insert-IsMap}
use gh_token_broker.Perm.Levels.{valid_key, valid_level, level_ord, level_ord-le, valid_level_iff}
use gh_token_broker.Perm.Scope.{Permissions, normalize_into, normalize}

abbrev pub ord_of : Option Str → ℕ
ord_of none = 0
ord_of (some v) = level_ord v

abbrev pub rank : Permissions → Str → ℕ
rank m k = if valid_key k then ord_of (lookup k m) else 0

-- What `normalize` keeps of the entry at `k`.
abbrev pub kept : Str → Option Str → Option Str
kept k none = none
kept k (some v) = if valid_key k then (if valid_level v then some v else none) else none

-- Every entry has a catalog key and a valid level.
abbrev pub IsCanonical : Permissions → Type 0
IsCanonical m = (k v : Str) → lookup k m ≡ some v → (valid_key k ≡ true) × (valid_level v ≡ true)

abbrev or_else : Option Str → Option Str → Option Str
or_else none o = o
or_else (some v) o = some v

lookup-normalize_into :
    (k : Str) (m out : Permissions)
    → IsMap m
    → lookup k (normalize_into out m) ≡ or_else (kept k (lookup k m)) (lookup k out)
unfolding normalize_into lookup
lookup-normalize_into k [] out h = refl
lookup-normalize_into k ((j, v) ∷ m) out (fresh, h) = ground (
  arith,
  ==_iff j k,
  lookup-normalize_into k m out h,
  lookup-normalize_into k m (insert j v out) h,
  lookup-insert j k v out,
)

pub lookup-normalize :
    (k : Str) (m : Permissions) → IsMap m → lookup k (normalize m) ≡ kept k (lookup k m)
unfolding normalize
lookup-normalize k m h = ground (arith, lookup-normalize_into k m [] h, lookup-nil {V = Str} k)

normalize_into-IsMap : (m out : Permissions) → IsMap out → IsMap (normalize_into out m)
unfolding normalize_into
normalize_into-IsMap [] out h = h
normalize_into-IsMap ((j, v) ∷ m) out h = ground (
  arith,
  normalize_into-IsMap m out h,
  normalize_into-IsMap m (insert j v out) (insert-IsMap j v out h),
)

pub normalize-IsMap : (m : Permissions) → IsMap (normalize m)
unfolding normalize
normalize-IsMap m = normalize_into-IsMap m [] tt

pub normalize-IsCanonical : (m : Permissions) → IsMap m → IsCanonical (normalize m)
normalize-IsCanonical m h k v e = ground (arith, lookup-normalize k m h)

pub rank-normalize : (m : Permissions) (k : Str) → IsMap m → rank (normalize m) k ≡ rank m k
rank-normalize m k h = elim (Option-cases (lookup k m)) [
  | inl missing ↦ ground (arith, lookup-normalize k m h)
  | inr (v, e) ↦ ground (arith, lookup-normalize k m h, valid_level_iff v)
]

-- On a canonical map the rank is positive exactly at the keys of the map.
pub lookup-rank :
    (m : Permissions) (k v : Str) → IsCanonical m → lookup k m ≡ some v → rank m k ≡ level_ord v
lookup-rank m k v c e = ground (arith, c k v e)

pub rank-pos_of_lookup :
    (m : Permissions) (k v : Str) → IsCanonical m → lookup k m ≡ some v → 0 < rank m k
rank-pos_of_lookup m k v c e = ground (arith, c k v e, valid_level_iff v)

pub rank-le : (m : Permissions) (k : Str) → rank m k ≤ 3
rank-le m k = elim (Option-cases (lookup k m)) [
  | inl missing ↦ ground arith
  | inr (v, e) ↦ ground (arith, level_ord-le v)
]
