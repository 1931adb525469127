-- ===== src/Server/Equal.antt =====
-- `scopeEqual` decides whether two permission maps have the same entries.
use gh_token_broker.Base.{
  suc, ◌≤◌, ◌≡◌, ◌≢◌, ◌↔◌, refl, sym, ap, ◌∙◌, true, none, some, [], ◌∷◌, Str, ◌==◌, ==_iff,
  if◌then◌else◌, eqb_iff, length, arith, Option-cases, inl, inr,
}
use gh_token_broker.Base.Map.{Map, IsMap, lookup}
use gh_token_broker.Perm.Levels.{found}
use gh_token_broker.Server.Scope.{or_empty, agrees_with, scope_equal}

remove : Str → Map Str → Map Str
remove key [] = []
remove key ((j, w) ∷ m) = if j == key then m else (j, w) ∷ remove key m

lookup-remove :
    (key j : Str) (m : Map Str)
    → IsMap m
    → lookup j (remove key m) ≡ (if key == j then none else lookup j m)
unfolding remove lookup
lookup-remove key j [] h = ground arith
lookup-remove key j ((i, w) ∷ m) (fresh, h) =
    ground (arith, ==_iff i key, ==_iff key j, ==_iff i j, lookup-remove key j m h)

remove-IsMap : (key : Str) (m : Map Str) → IsMap m → IsMap (remove key m)
unfolding remove
remove-IsMap key [] h = tt
remove-IsMap key ((i, w) ∷ m) (fresh, h) =
    ground (arith, lookup-remove key i m h, remove-IsMap key m h)

length-remove :
    (key : Str) (m : Map Str) → found (lookup key m) ≡ true → suc (length (remove key m)) ≡ length m
unfolding remove lookup
length-remove key [] h = ground arith
length-remove key ((i, w) ∷ m) h = ground (arith, length-remove key m)

-- A map that has all keys of another and no more entries has no other keys.
keys-full :
    (a b : Map Str)
    → IsMap a
    → IsMap b
    → ((j : Str) → found (lookup j a) ≡ true → found (lookup j b) ≡ true)
    → length b ≤ length a
    → (j : Str) → found (lookup j b) ≡ true
    → found (lookup j a) ≡ true
unfolding lookup
keys-full [] [] ha hb sub le j h = h
keys-full [] (e ∷ b) ha hb sub le j h = absurd (omega arith)
keys-full ((k, v) ∷ a) b (fresh, ha) hb sub le j h =
    let here : found (lookup k b) ≡ true = ground (arith, sub k, ==_iff k k) in
    let shorter = length-remove k b here in
    let rest =
      keys-full a (remove k b) ha (remove-IsMap k b hb)
        (λ i e. ground (arith, lookup-remove k i b hb, sub i, ==_iff k i)) (omega arith) j in
    ground (arith, lookup-remove k j b hb, ==_iff k j)

agrees_with_iff :
    (b a : Map Str)
    → IsMap a
    → (agrees_with b a ≡ true) ↔ ((k v : Str) → lookup k a ≡ some v → or_empty (lookup k b) ≡ v)
unfolding agrees_with lookup
agrees_with_iff b [] h = (λ e k v none_there. cc, λ e. refl)
agrees_with_iff b ((k, v) ∷ a) (fresh, h) =
    let (to, from) = agrees_with_iff b a h in
    (
      λ e j w there.
          ground (arith, ==_iff (or_empty (lookup k b)) v, ==_iff k j, to (ground arith) j w),
      λ all_there.
          let first : or_empty (lookup k b) ≡ v = all_there k v (ground (arith, ==_iff k k)) in
          let later = from (λ j w e. all_there j w (ground (arith, ==_iff k j))) in
          ground (arith, ==_iff (or_empty (lookup k b)) v),
    )

length-le :
    (a b : Map Str)
    → IsMap a
    → IsMap b
    → ((j : Str) → found (lookup j a) ≡ true → found (lookup j b) ≡ true)
    → length a ≤ length b
unfolding lookup
length-le [] b ha hb sub = omega arith
length-le ((k, v) ∷ a) b (fresh, ha) hb sub =
    let here : found (lookup k b) ≡ true = ground (arith, sub k, ==_iff k k) in
    let rest =
      length-le a (remove k b) ha (remove-IsMap k b hb)
        (λ i e. ground (arith, lookup-remove k i b hb, sub i, ==_iff k i)) in
    omega (arith, length-remove k b here, rest)

module _ (a b : Map Str) (ha : IsMap a) (hb : IsMap b)
    (full : (k v : Str) → lookup k a ≡ some v → v ≢ []) where
  same_value : (k v : Str) → lookup k a ≡ some v → or_empty (lookup k b) ≡ v → lookup k b ≡ some v
  same_value k v e same = elim (Option-cases (lookup k b)) [
    | inl missing ↦ absurd (full k v e (sym same ∙ ap or_empty missing))
    | inr (w, there) ↦ there ∙ ap some (sym (ap or_empty there) ∙ same)
  ]

  keeps_keys :
      ((k v : Str) → lookup k a ≡ some v → or_empty (lookup k b) ≡ v)
      → (j : Str) → found (lookup j a) ≡ true
      → found (lookup j b) ≡ true
  keeps_keys values j e = elim (Option-cases (lookup j a)) [
    | inl none_there ↦ cc (ap found none_there, e)
    | inr (v, e') ↦ ap found (same_value j v e' (values j v e'))
  ]

  same_entries : scope_equal a b ≡ true → (k : Str) → lookup k a ≡ lookup k b
  unfolding scope_equal
  same_entries h k =
      let size : length a ≡ length b = (eqb_iff (length a) (length b)).0 (ground arith) in
      let values = (agrees_with_iff b a ha).0 (ground arith) in
      elim (Option-cases (lookup k a)) [
        | inr (v, e) ↦ e ∙ sym (same_value k v e (values k v e))
        | inl missing ↦ elim (Option-cases (lookup k b)) [
          | inl gone ↦ missing ∙ sym gone
          | inr (w, there) ↦ cc (
            keys-full a b ha hb (keeps_keys values) (omega (arith, size)) k (ap found there),
            ap found missing,
          )
        ]
      ]

  -- For maps with no key twice, if no level of the first one is empty, `scopeEqual` holds exactly
  -- if both maps have the same entry at every key.
  pub scope_equal_iff : (scope_equal a b ≡ true) ↔ ((k : Str) → lookup k a ≡ lookup k b)
  unfolding scope_equal
  scope_equal_iff = (
    same_entries,
    λ same.
        let fewer = length-le a b ha hb (λ j e. sym (ap found (same j)) ∙ e) in
        let more = length-le b a hb ha (λ j e. ap found (same j) ∙ e) in
        let size = (eqb_iff (length a) (length b)).1 (omega (arith, fewer, more)) in
        let agree = (agrees_with_iff b a ha).1 (λ k v e. ap or_empty (sym (same k) ∙ e)) in
        rw (size, agree),
  )
