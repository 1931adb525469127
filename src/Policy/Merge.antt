-- ===== src/Policy/Merge.antt =====
-- `mergePermissions` computes the pointwise maximum of the abstract views.
use gh_token_broker.Base.{
  ◌≤◌, max, ◌≡◌, ◌↔◌, refl, true, some, [], ◌∷◌, arith, Str, ◌==◌, ==_iff, ==_refl, ◌&&◌,
  if◌then◌else◌, inl, inr, Bool-cases, Option-cases,
}
use gh_token_broker.Base.Map.{lookup, insert, IsMap, lookup-insert, lookup-nil, insert-IsMap}
use gh_token_broker.Perm.Levels.{valid_key, valid_level, level_ord}
use gh_token_broker.Perm.Scope.{Permissions, normalize, satisfies}
use gh_token_broker.Perm.Rank.{
  rank, IsCanonical, normalize-IsMap, normalize-IsCanonical, rank-normalize,
}
use gh_token_broker.Perm.Covers.{satisfies_iff}
use gh_token_broker.Policy.Engine.{raises, merge_into, merge_permissions}

abbrev single : Str → Str → Permissions
single key v = (key, v) ∷ []

rank-single :
    (key v j : Str) → rank (single key v) j ≡ (if valid_key j && (key == j) then level_ord v else 0)
rank-single key v j = unfold lookup in ground arith

satisfies-single :
    (key existing level : Str)
    → valid_key key ≡ true
    → (satisfies (single key existing) (single key level) ≡ true)
      ↔ (level_ord existing ≤ level_ord level)
satisfies-single key existing level valid =
    let (to, from) =
      satisfies_iff (single key existing) (single key level) (lookup-nil key, tt)
        (lookup-nil key, tt) in
    (
      λ h.
          ground
            (arith, to h key, rank-single key existing key, rank-single key level key, ==_refl key),
      λ le. from (λ j. ground (arith, rank-single key existing j, rank-single key level j)),
    )

raises_iff :
    (key level : Str) (d : Permissions)
    → valid_key key ≡ true
    → (raises key (lookup key d) level ≡ true) ↔ (rank d key ≤ level_ord level)
raises_iff key level d valid = elim (Option-cases (lookup key d)) [
  | inl missing ↦ rw (missing, valid) (λ h. omega arith, λ h. refl)
  | inr (v, e) ↦ rw (e, valid) (satisfies-single key v level valid)
]

abbrev raise_to : Str → Str → Permissions → Permissions
raise_to key level d = if raises key (lookup key d) level then insert key level d else d

module _ (key level : Str) (d : Permissions) where
  rank-insert :
      (k : Str)
      → valid_key key ≡ true
      → rank (insert key level d) k ≡ (if key == k then level_ord level else rank d k)
  rank-insert k valid = ground (arith, lookup-insert key k level d, ==_iff key k)

  rank-raise_to :
      (k : Str)
      → valid_key key ≡ true
      → rank (raise_to key level d) k
        ≡ (if key == k then max (rank d k) (level_ord level) else rank d k)
  rank-raise_to k valid =
      let (to, from) = raises_iff key level d valid in
      elim (Bool-cases (raises key (lookup key d) level)) [
        | inl up ↦ rw up (ground (arith, rank-insert k valid, to up, ==_iff key k))
        | inr stay ↦ elim (Bool-cases (key == k)) [
          | inl same ↦
              let high : ¬ (rank d key ≤ level_ord level) = λ le. cc (from le, stay) in
              rw (stay, same) (ground (arith, ==_iff key k))
          | inr other ↦ rw (stay, other) refl
        ]
      ]

  raise_to-IsMap : IsMap d → IsMap (raise_to key level d)
  raise_to-IsMap h = elim (Bool-cases (raises key (lookup key d) level)) [
    | inl up ↦ rw up (insert-IsMap key level d h)
    | inr stay ↦ rw stay h
  ]

  insert-IsCanonical :
      valid_key key ≡ true
      → valid_level level ≡ true
      → IsCanonical d
      → IsCanonical (insert key level d)
  insert-IsCanonical valid fine c k v e =
      ground (arith, lookup-insert key k level d, ==_iff key k, c k v)

  raise_to-IsCanonical :
      valid_key key ≡ true
      → valid_level level ≡ true
      → IsCanonical d
      → IsCanonical (raise_to key level d)
  raise_to-IsCanonical valid fine c = elim (Bool-cases (raises key (lookup key d) level)) [
    | inl up ↦ rw up (insert-IsCanonical valid fine c)
    | inr stay ↦ rw stay c
  ]

IsCanonical-tail :
    (key level : Str) (rest : Permissions)
    → IsMap ((key, level) ∷ rest)
    → IsCanonical ((key, level) ∷ rest)
    → IsCanonical rest
unfolding lookup
IsCanonical-tail key level rest (fresh, h) c k v e = ground (arith, c k v, ==_iff key k)

lookup-head : (key level : Str) (rest : Permissions) → lookup key ((key, level) ∷ rest) ≡ some level
unfolding lookup
lookup-head key level rest = ground (arith, ==_refl key)

rank-cons :
    (key level : Str) (rest : Permissions) (k : Str)
    → valid_key key ≡ true
    → rank ((key, level) ∷ rest) k ≡ (if key == k then level_ord level else rank rest k)
unfolding lookup
rank-cons key level rest k valid = ground (arith, ==_iff key k)

-- What the loop of `mergePermissions` keeps and computes.
record Merged (d s r : Permissions) : Type 0 where
  one_entry : IsMap r
  canonical : IsCanonical r
  highest : (k : Str) → rank r k ≡ max (rank d k) (rank s k)

merge_into-Merged :
    (d s : Permissions)
    → IsMap d
    → IsCanonical d
    → IsMap s
    → IsCanonical s
    → Merged d s (merge_into d s)
unfolding merge_into
merge_into-Merged d [] hd cd hs cs = record {
  one_entry = hd;
  canonical = cd;
  highest = λ k. ground (arith, lookup-nil {V = Str} k);
}
merge_into-Merged d ((key, level) ∷ rest) hd cd (fresh, hs) cs =
    let (valid, fine) = cs key level (lookup-head key level rest) in
    let ih =
      merge_into-Merged (raise_to key level d) rest (raise_to-IsMap key level d hd)
        (raise_to-IsCanonical key level d valid fine cd) hs
        (IsCanonical-tail key level rest (fresh, hs) cs) in
    record {
      one_entry = ih.one_entry;
      canonical = ih.canonical;
      highest = λ k. ground (
        arith,
        ih.highest k,
        rank-raise_to key level d k valid,
        rank-cons key level rest k valid,
        ==_iff key k,
      );
    }

module _ (d s : Permissions) (hd : IsMap d) (cd : IsCanonical d) (hs : IsMap s) where
  merge : Merged d (normalize s) (merge_permissions d s)
  unfolding merge_permissions
  merge = merge_into-Merged d (normalize s) hd cd (normalize-IsMap s) (normalize-IsCanonical s hs)

  pub merge_permissions-IsMap : IsMap (merge_permissions d s)
  merge_permissions-IsMap = merge.one_entry

  pub merge_permissions-IsCanonical : IsCanonical (merge_permissions d s)
  merge_permissions-IsCanonical = merge.canonical

  -- If the destination is a canonical map, and neither map has a key twice, `mergePermissions`
  -- leaves at every key the higher of the two levels.
  pub rank-merge_permissions :
      (k : Str) → rank (merge_permissions d s) k ≡ max (rank d k) (rank s k)
  rank-merge_permissions k = ground (arith, merge.highest k, rank-normalize s k hs)
