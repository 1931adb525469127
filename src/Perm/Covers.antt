-- ===== src/Perm/Covers.antt =====
-- `Satisfies` and `Gaps` decide the pointwise order of the abstract views.
use gh_token_broker.Base.{
  ◌≤◌, ◌<◌, ◌≡◌, ◌≢◌, ◌↔◌, refl, Bool, true, false, Option, none, some, [], ◌∷◌, arith, Str, codes,
  ltb, ◌==◌, ◌++◌, ◌||◌, ==_iff, if◌then◌else◌, inl, inr, Bool-cases, Option-cases,
}
use gh_token_broker.Base.Map.{Map, lookup, insert, IsMap, lookup-insert, lookup-nil}
use gh_token_broker.Perm.Levels.{valid_key, valid_level, level_ord, valid_level_iff, found}
use gh_token_broker.Perm.Scope.{
  Permissions, normalize, lacks, covers, satisfies, note_gap, gaps_into, nil_if_empty, gaps,
}
use gh_token_broker.Perm.Rank.{
  rank, IsCanonical, normalize-IsMap, normalize-IsCanonical, rank-normalize,
}

-- No entry of `r` is lacking in `g`.
abbrev Covered : Permissions → Permissions → Type 0
Covered g r = (k v : Str) → lookup k r ≡ some v → lacks (lookup k g) v ≡ false

covers_sound : (g r : Permissions) → covers g r ≡ true → Covered g r
unfolding covers lookup
covers_sound g [] h k v e = ground arith
covers_sound g ((j, w) ∷ r) h k v e =
    ground (arith, ==_iff j k, covers_sound g r (ground arith) k v)

covers_complete : (g r : Permissions) → IsMap r → Covered g r → covers g r ≡ true
unfolding covers lookup
covers_complete g [] h c = refl
covers_complete g ((j, w) ∷ r) (fresh, h) c =
    let rest = covers_complete g r h (λ k v e. c k v (ground (arith, ==_iff j k))) in
    ground (arith, c j w, ==_iff j j)

lacks_iff :
    (g : Permissions) (k v : Str)
    → IsCanonical g
    → valid_key k ≡ true
    → valid_level v ≡ true
    → (lacks (lookup k g) v ≡ false) ↔ (level_ord v ≤ rank g k)
lacks_iff g k v c valid level = elim (Option-cases (lookup k g)) [
  | inl missing ↦ ground (arith, valid_level_iff v)
  | inr (w, found) ↦ ground (arith, c k w found)
]

module _ (r g : Permissions) (hr : IsMap r) (hg : IsMap g) where
  Covered→le : Covered (normalize g) (normalize r) → (k : Str) → rank r k ≤ rank g k
  Covered→le c k = elim (Option-cases (lookup k (normalize r))) [
    | inl missing ↦ ground (arith, rank-normalize r k hr)
    | inr (v, found) ↦
        let (valid, level) = normalize-IsCanonical r hr k v found in
        ground (
          arith,
          rank-normalize r k hr,
          rank-normalize g k hg,
          (lacks_iff (normalize g) k v (normalize-IsCanonical g hg) valid level).0 (c k v found),
        )
  ]

  le→Covered : ((k : Str) → rank r k ≤ rank g k) → Covered (normalize g) (normalize r)
  le→Covered le k v found =
      let (valid, level) = normalize-IsCanonical r hr k v found in
      (lacks_iff (normalize g) k v (normalize-IsCanonical g hg) valid level).1
        (ground (arith, rank-normalize r k hr, rank-normalize g k hg, le k))

  -- For maps with no key twice, `Satisfies` holds exactly if at every key the required level is at
  -- most the granted one.
  pub satisfies_iff : (satisfies r g ≡ true) ↔ ((k : Str) → rank r k ≤ rank g k)
  unfolding satisfies
  satisfies_iff = (
    λ h. Covered→le (covers_sound (normalize g) (normalize r) h),
    λ le. covers_complete (normalize g) (normalize r) (normalize-IsMap r) (le→Covered le),
  )

insert-ne-nil : (k v : Str) (m : Map Str) → insert k v m ≢ []
unfolding insert
insert-ne-nil k v [] = λ e. cc
insert-ne-nil k v ((j, w) ∷ m) = λ e. ground arith

module _ (k v : Str) where
  note_gap-ne-nil : (o : Option Str) (out : Map Str) → out ≢ [] → note_gap k v o out ≢ []
  note_gap-ne-nil none out h = insert-ne-nil k _ out
  note_gap-ne-nil (some gv) out h = elim (Bool-cases (ltb (level_ord gv) (level_ord v))) [
    | inl low ↦ rw low (insert-ne-nil k _ out)
    | inr fine ↦ rw fine h
  ]

  note_gap-lacking : (o : Option Str) (out : Map Str) → lacks o v ≡ true → note_gap k v o out ≢ []
  note_gap-lacking none out h = insert-ne-nil k _ out
  note_gap-lacking (some gv) out h = rw h (insert-ne-nil k _ out)

  note_gap-fine : (o : Option Str) (out : Map Str) → lacks o v ≡ false → note_gap k v o out ≡ out
  note_gap-fine none out h = ground arith
  note_gap-fine (some gv) out h = rw h

  found-note_gap :
      (o : Option Str) (out : Map Str) (j : Str)
      → found (lookup j (note_gap k v o out))
        ≡ (if k == j then lacks o v || found (lookup j out) else found (lookup j out))
  found-note_gap none out j =
      ground (arith, lookup-insert k j (codes "need " ++ (v ++ codes ", not granted")) out)
  found-note_gap (some gv) out j =
      ground (arith, lookup-insert k j (codes "need " ++ (v ++ (codes ", have " ++ gv))) out)

gaps_into-ne-nil :
    (g : Permissions) (out : Map Str) (r : Permissions) → out ≢ [] → gaps_into g out r ≢ []
unfolding gaps_into
gaps_into-ne-nil g out [] h = h
gaps_into-ne-nil g out ((k, v) ∷ r) h =
    gaps_into-ne-nil g (note_gap k v (lookup k g) out) r (note_gap-ne-nil k v (lookup k g) out h)

gaps_into-covers : (g r : Permissions) → (gaps_into g [] r ≡ []) ↔ (covers g r ≡ true)
unfolding gaps_into covers
gaps_into-covers g [] = ground arith
gaps_into-covers g ((k, v) ∷ r) = elim (Bool-cases (lacks (lookup k g) v)) [
  | inl lacking ↦
      let full =
        gaps_into-ne-nil g (note_gap k v (lookup k g) []) r
          (note_gap-lacking k v (lookup k g) [] lacking) in
      rw lacking (λ e. absurd (full e), λ e. cc)
  | inr fine ↦ rw (fine, note_gap-fine k v (lookup k g) [] fine) (gaps_into-covers g r)
]

-- `Gaps` returns nil exactly if `Satisfies` holds.
pub gaps-none_iff : (r g : Permissions) → (gaps r g ≡ none) ↔ (satisfies r g ≡ true)
unfolding gaps satisfies
gaps-none_iff r g =
    let (to, from) = gaps_into-covers (normalize g) (normalize r) in
    (λ e. to (nil_of_none _ e), λ h. rw (from h))
  where
    nil_of_none : (m : Map Str) → nil_if_empty m ≡ none → m ≡ []
    nil_of_none [] e = refl
    nil_of_none (x ∷ m) e = cc

abbrev entry_gap : Permissions → Option Str → Str → Bool
entry_gap g none k = false
entry_gap g (some v) k = lacks (lookup k g) v

found-gaps_into :
    (g : Permissions) (out : Map Str) (r : Permissions) (k : Str)
    → IsMap r
    → found (lookup k (gaps_into g out r)) ≡ (entry_gap g (lookup k r) k || found (lookup k out))
unfolding gaps_into lookup
found-gaps_into g out [] k h = refl
found-gaps_into g out ((j, v) ∷ r) k (fresh, h) = ground (
  arith,
  ==_iff j k,
  found-gaps_into g (note_gap j v (lookup j g) out) r k h,
  found-note_gap j v (lookup j g) out k,
)

entry_gap_iff :
    (r g : Permissions) (k : Str)
    → IsMap r
    → IsMap g
    → (entry_gap (normalize g) (lookup k (normalize r)) k ≡ true) ↔ (rank g k < rank r k)
entry_gap_iff r g k hr hg = elim (Option-cases (lookup k (normalize r))) [
  | inl missing ↦ ground (arith, rank-normalize r k hr)
  | inr (v, e) ↦
      let (valid, level) = normalize-IsCanonical r hr k v e in
      let (to, from) = lacks_iff (normalize g) k v (normalize-IsCanonical g hg) valid level in
      elim (Bool-cases (lacks (lookup k (normalize g)) v)) [
        | inl lacking ↦
            let low : ¬ (level_ord v ≤ rank (normalize g) k) = λ le. ground (arith, from le) in
            ground (arith, rank-normalize r k hr, rank-normalize g k hg)
        | inr fine ↦ ground (arith, rank-normalize r k hr, rank-normalize g k hg, to fine)
      ]
]

-- For maps with no key twice, if `Gaps` reports gaps, the keys that it reports are exactly those
-- whose required level is above the granted one.
pub lookup-gaps_iff :
    (r g : Permissions) (out : Map Str) (k : Str)
    → IsMap r
    → IsMap g
    → gaps r g ≡ some out
    → (found (lookup k out) ≡ true) ↔ (rank g k < rank r k)
unfolding gaps
lookup-gaps_iff r g out k hr hg e =
    let (to, from) = entry_gap_iff r g k hr hg in
    let same = found-gaps_into (normalize g) [] (normalize r) k (normalize-IsMap r) in
    let whole = out_of_some _ e in
    (λ h. to (ground (arith, lookup-nil {V = Str} k)), λ lt. ground (arith, from lt))
  where
    out_of_some : (m : Map Str) → nil_if_empty m ≡ some out → m ≡ out
    out_of_some [] h = cc
    out_of_some (x ∷ m) h = cc
