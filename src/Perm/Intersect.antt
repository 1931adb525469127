-- ===== src/Perm/Intersect.antt =====
-- `Intersect` computes the pointwise minimum of the abstract views.
use gh_token_broker.Base.{
  ℕ, ◌≤◌, ◌<◌, min, ◌≡◌, refl, true, Option, none, some, List, [], ◌∷◌, map, arith, Str, ==_iff,
  inl, inr, Bool-cases, Option-cases, All,
}
use gh_token_broker.Base.Map.{lookup, insert, IsMap, lookup-insert, lookup-nil}
use gh_token_broker.Perm.Levels.{
  valid_key, level_ord, level_name, level_ord-le, valid_level_iff, level_ord-level_name, or_zero,
}
use gh_token_broker.Perm.Scope.{Permissions, normalize, min_level, intersect_into, intersect}
use gh_token_broker.Perm.Rank.{
  rank, IsCanonical, normalize-IsMap, normalize-IsCanonical, rank-normalize,
}

abbrev pub minimum : ℕ → List ℕ → ℕ
minimum x [] = x
minimum x (y ∷ ys) = minimum (min x y) ys

minimum-zero : (ys : List ℕ) → minimum 0 ys ≡ 0
minimum-zero [] = refl
minimum-zero (y ∷ ys) = let e : min 0 y ≡ 0 = omega arith in rw e (minimum-zero ys)

abbrev pub ranks : Str → List Permissions → List ℕ
ranks k [] = []
ranks k (m ∷ ms) = rank m k ∷ ranks k ms

-- `min_level` is the minimum of the ranks, with `none` for 0.
min_level-minimum :
    (k : Str) (low : ℕ) (others : List Permissions)
    → valid_key k ≡ true
    → 0 < low
    → All IsCanonical others
    → or_zero (min_level k low others) ≡ minimum low (ranks k others)
unfolding min_level
min_level-minimum k low [] valid pos h = refl
min_level-minimum k low (m ∷ ms) valid pos (c, h) = elim (Option-cases (lookup k m)) [
  | inl missing ↦ ground (arith, minimum-zero (ranks k ms))
  | inr (v, e) ↦ ground (
    arith,
    c k v e,
    valid_level_iff v,
    min_level-minimum k low ms valid pos h,
    min_level-minimum k (level_ord v) ms,
  )
]

min_level_bounds :
    (k : Str) (low : ℕ) (others : List Permissions) (l : ℕ)
    → valid_key k ≡ true
    → 0 < low
    → low ≤ 3
    → All IsCanonical others
    → min_level k low others ≡ some l
    → (0 < l) × (l ≤ 3)
unfolding min_level
min_level_bounds k low [] l valid pos le h e = ground arith
min_level_bounds k low (m ∷ ms) l valid pos le (c, h) e = elim (Option-cases (lookup k m)) [
  | inl missing ↦ ground arith
  | inr (v, found) ↦ ground (
    arith,
    c k v found,
    valid_level_iff v,
    min_level_bounds k low ms l valid pos le h,
    level_ord-le v,
    min_level_bounds k (level_ord v) ms l,
  )
]

-- The entry that `Intersect` writes for an entry of its first map.
abbrev met : Str → List Permissions → Option Str → Option ℕ
met k others none = none
met k others (some v) = min_level k (level_ord v) others

abbrev named_or : Option ℕ → Option Str → Option Str
named_or none o = o
named_or (some l) o = some (level_name l)

lookup-intersect_into :
    (k : Str) (others : List Permissions) (m result : Permissions)
    → IsMap m
    → lookup k (intersect_into others result m)
      ≡ named_or (met k others (lookup k m)) (lookup k result)
unfolding intersect_into lookup
lookup-intersect_into k others [] result h = refl
lookup-intersect_into k others ((j, v) ∷ m) result (fresh, h) =
    elim (Option-cases (min_level j (level_ord v) others)) [
      | inl absent ↦ ground (arith, ==_iff j k, lookup-intersect_into k others m result h)
      | inr (l, e) ↦ ground (
        arith,
        ==_iff j k,
        lookup-intersect_into k others m (insert j (level_name l) result) h,
        lookup-insert j k (level_name l) result,
      )
    ]

pub lookup-intersect :
    (k : Str) (m : Permissions) (ms : List Permissions)
    → lookup k (intersect (m ∷ ms))
      ≡ named_or (met k (map normalize ms) (lookup k (normalize m))) none
unfolding intersect
lookup-intersect k m ms = ground (
  arith,
  lookup-intersect_into k (map normalize ms) (normalize m) [] (normalize-IsMap m),
  lookup-nil {V = Str} k,
)

normalize-All : (ms : List Permissions) → All IsMap ms → All IsCanonical (map normalize ms)
normalize-All [] h = tt
normalize-All (m ∷ ms) (p, h) = (normalize-IsCanonical m p, normalize-All ms h)

ranks-normalize :
    (k : Str) (ms : List Permissions) → All IsMap ms → ranks k (map normalize ms) ≡ ranks k ms
ranks-normalize k [] h = refl
ranks-normalize k (m ∷ ms) (p, h) = ground (arith, rank-normalize m k p, ranks-normalize k ms h)

-- An entry of the result comes from a canonical entry of the first map, and carries the name of
-- a valid level.
pub intersect-entry :
    (k v : Str) (m : Permissions) (ms : List Permissions)
    → IsMap m
    → All IsMap ms
    → lookup k (intersect (m ∷ ms)) ≡ some v
    → (valid_key k ≡ true) × (v ≡ level_name (level_ord v)) × (0 < level_ord v)
intersect-entry k v m ms p h e = elim (Option-cases (lookup k (normalize m))) [
  | inl missing ↦ ground (arith, lookup-intersect k m ms)
  | inr (w, found) ↦ elim (Option-cases (min_level k (level_ord w) (map normalize ms))) [
    | inl absent ↦ ground (arith, lookup-intersect k m ms)
    | inr (l, low) ↦
        let (valid, level) = normalize-IsCanonical m p k w found in
        let (pos, le) =
          min_level_bounds k (level_ord w) (map normalize ms) l valid ((valid_level_iff w).0 level)
            (level_ord-le w) (normalize-All ms h) low in
        ground (arith, lookup-intersect k m ms, level_ord-level_name l pos le)
  ]
]

pub intersect-IsCanonical :
    (m : Permissions) (ms : List Permissions)
    → IsMap m
    → All IsMap ms
    → IsCanonical (intersect (m ∷ ms))
intersect-IsCanonical m ms p h k v e =
    let (valid, _, pos) = intersect-entry k v m ms p h e in (valid, (valid_level_iff v).1 pos)

-- For maps with no key twice, the level of their `Intersect` at a key is the minimum of their
-- levels there, where a missing or invalid entry counts as no level.
pub rank-intersect :
    (k : Str) (m : Permissions) (ms : List Permissions)
    → IsMap m
    → All IsMap ms
    → rank (intersect (m ∷ ms)) k ≡ minimum (rank m k) (ranks k ms)
rank-intersect k m ms p h = elim (Bool-cases (valid_key k)) [
  | inl valid ↦ elim (Option-cases (lookup k (normalize m))) [
    | inl missing ↦
        ground (arith, lookup-intersect k m ms, rank-normalize m k p, minimum-zero (ranks k ms))
    | inr (w, found) ↦ rank-intersect_found valid w found
  ]
  | inr invalid ↦ ground (arith, minimum-zero (ranks k ms))
]
  where
    rank-intersect_found :
        valid_key k ≡ true
        → (w : Str) → lookup k (normalize m) ≡ some w
        → rank (intersect (m ∷ ms)) k ≡ minimum (rank m k) (ranks k ms)
    rank-intersect_found valid w found =
        let (_, level) = normalize-IsCanonical m p k w found in
        let pos : 0 < level_ord w = (valid_level_iff w).0 level in
        let least =
          min_level-minimum k (level_ord w) (map normalize ms) valid pos (normalize-All ms h) in
        elim (Option-cases (min_level k (level_ord w) (map normalize ms))) [
          | inl absent ↦
              ground (
                arith,
                least,
                ranks-normalize k ms h,
                lookup-intersect k m ms,
                rank-normalize m k p,
              )
          | inr (l, low) ↦
              let (lpos, le) =
                min_level_bounds k (level_ord w) (map normalize ms) l valid pos (level_ord-le w)
                  (normalize-All ms h) low in
              ground (
                arith,
                least,
                ranks-normalize k ms h,
                lookup-intersect k m ms,
                rank-normalize m k p,
                level_ord-level_name l lpos le,
              )
        ]
